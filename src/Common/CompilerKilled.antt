-- ===== src/Common/CompilerKilled.antt =====
-- internal/common/compiler-killed.go: a compiler that was killed, against one that refused the source.
use nocc.Prelude.Text.{ascii, contains}
use nocc.Prelude.{ℕ, Bool, true, ◌&&◌, ◌||◌, Bytes, nat_beq}

-- An exit code below zero stands for a signal, or a compiler that never started.
pub data ExitCode : Type 0 where
  exited : ℕ → ExitCode
  below_zero : ExitCode

unfoldable pub compiler_was_killed : ExitCode → Bytes → Bool
unfolding contains
compiler_was_killed below_zero stderr = true
compiler_was_killed (exited code) stderr =
    nat_beq code 1
    && (contains stderr (ascii "Killed signal terminated program")
        || contains stderr (ascii "Terminated signal terminated program"))
