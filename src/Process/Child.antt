-- ===== src/Process/Child.antt =====
-- `Process::Impl`: how a child is started, watched and ended. What the child does between `fork` and
-- `execvp` is given to `fork` as a `Spawn`.
use lsp_framework_noec.Base.{ℕ, Bool, true, false, Bytes, List, ◌∷◌, Option, none, some}
use lsp_framework_noec.Socket.Transfer.{Received, Sent}

-- What the child starts with: the descriptors that `dup2` makes its standard input and output, the one
-- that it writes an error of `execvp` to, and the arguments.
pub record Spawn : Type 0 where
  pub stdin : ℕ
  pub stdout : ℕ
  pub errors : ℕ
  pub argv : List Bytes

pub data Signal : Type 0 where
  sigterm sigkill : Signal

-- The calls of the operating system. Where they give -1, this gives `none` or a failure.
pub record Posix : Type 1 where
  pub World : Type 0
  -- The end to read from and the end to write to.
  pub pipe : World → Option (ℕ × ℕ) × World
  pub close : ℕ → World → World
  pub fork : Spawn → World → Option ℕ × World
  -- Whether the child writes an error before the other ends of this pipe are closed.
  pub read_error : ℕ → World → Bool × World
  pub kill : ℕ → Signal → World → World
  pub waitpid : ℕ → World → World
  -- With `WNOHANG`: whether the result is 0, as it is for a child that is running.
  pub still_running : ℕ → World → Bool × World
  pub read : ℕ → ℕ → World → Received × World
  pub write : ℕ → Bytes → World → Sent × World

-- `Process::Impl`, with `none` for -1.
pub record Impl : Type 0 where
  pub stdin_write : Option ℕ
  pub stdout_read : Option ℕ
  pub pid : Option ℕ

abbrev pub no_impl : Impl
no_impl = record { stdin_write = none; stdout_read = none; pid = none }

module _ (O : Posix) where
  open O use {World, close}

  -- The parent's part behind `fork`: the child tells whether `execvp` failed.
  unfoldable pub executed : ℕ → ℕ → ℕ → ℕ → Bool × World → Impl × World
  executed in_write out_read err_read pid (true, w) =
      let v = O.waitpid pid (close out_read (close in_write (close err_read w))) in
      (record { stdin_write = none; stdout_read = none; pid = some pid }, v)
  executed in_write out_read err_read pid (false, w) = (
    record { stdin_write = some in_write; stdout_read = some out_read; pid = some pid },
    close err_read w,
  )

  unfoldable pub forked : ℕ × ℕ → ℕ × ℕ → ℕ × ℕ → Option ℕ × World → Impl × World
  forked inp out err (none, w) = (no_impl, close out.1 (close out.0 (close inp.1 (close inp.0 w))))
  forked inp out err (some pid, w) =
      let v = close err.1 (close out.1 (close inp.0 w)) in
      executed inp.1 out.0 err.0 pid (O.read_error err.0 v)

  unfoldable pub with_err_pipe : List Bytes → ℕ × ℕ → ℕ × ℕ → Option (ℕ × ℕ) × World → Impl × World
  with_err_pipe argv inp out (none, w) =
      (no_impl, close out.1 (close out.0 (close inp.1 (close inp.0 w))))
  with_err_pipe argv inp out (some err, w) =
      forked inp out err
        (O.fork (record { stdin = inp.0; stdout = out.1; errors = err.1; argv = argv }) w)

  unfoldable pub with_out_pipe : List Bytes → ℕ × ℕ → Option (ℕ × ℕ) × World → Impl × World
  with_out_pipe argv inp (none, w) = (no_impl, close inp.1 (close inp.0 w))
  with_out_pipe argv inp (some out, w) = with_err_pipe argv inp out (O.pipe w)

  unfoldable pub with_in_pipe : List Bytes → Option (ℕ × ℕ) × World → Impl × World
  with_in_pipe argv (none, w) = (no_impl, w)
  with_in_pipe argv (some inp, w) = with_out_pipe argv inp (O.pipe w)

  -- The constructor.
  unfoldable pub make_impl : Bytes → List Bytes → World → Impl × World
  make_impl executable args w = with_in_pipe (executable ∷ args) (O.pipe w)

  unfoldable pub close_handle : Option ℕ → World → World
  close_handle none w = w
  close_handle (some fd) w = close fd w

  unfoldable pub close_std_handles : Impl → World → Impl × World
  close_std_handles impl w = (
    record impl { stdin_write = none; stdout_read = none },
    close_handle impl.stdout_read (close_handle impl.stdin_write w),
  )

  -- What a result of `waitpid` with `WNOHANG` tells.
  unfoldable pub watched : Impl → Bool × World → Bool × Impl × World
  watched impl (true, w) = (true, impl, w)
  watched impl (false, w) =
      let (closed, v) = close_std_handles (record impl { pid = none }) w in (false, closed, v)

  unfoldable pub check_running_pid : Option ℕ → Impl → World → Bool × Impl × World
  check_running_pid none impl w = (false, impl, w)
  check_running_pid (some pid) impl w = watched impl (O.still_running pid w)

  unfoldable pub check_running : Impl → World → Bool × Impl × World
  check_running impl w = check_running_pid impl.pid impl w

  unfoldable pub signal : Option Signal → ℕ → World → World
  signal none pid w = w
  signal (some s) pid w = O.kill pid s w

  -- The signal that a child gets, if any, and the wait for its end.
  unfoldable pub reap : Option Signal → Option ℕ → Impl × World → Impl × World
  reap s none (impl, w) = (record impl { pid = none }, w)
  reap s (some pid) (impl, w) = (record impl { pid = none }, O.waitpid pid (signal s pid w))

  unfoldable pub end_child : Option Signal → Bool × Impl × World → Impl × World
  end_child s (false, impl, w) = (impl, w)
  end_child s (true, impl, w) = reap s impl.pid (close_std_handles impl w)

  unfoldable pub wait : Impl → World → Impl × World
  wait impl w = end_child none (check_running impl w)

  unfoldable pub terminate : Impl → World → Impl × World
  terminate impl w = end_child (some sigterm) (check_running impl w)

  -- The destructor.
  unfoldable pub destroy : Impl → World → World
  destroy impl w = (end_child (some sigkill) (check_running impl w)).1
