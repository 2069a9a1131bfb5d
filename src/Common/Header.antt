-- ===== src/Common/Header.antt =====
-- The constants of `public.h`, which the sources include and the repository does not hold.
use mathlib.Core.Path.{◌≡◌}
use custom_public_library_rl.Common.Int.{ℤ, pos, negsuc}

-- What the modules rely on: RL_TRUE and RL_FALSE are the values of a C `bool`, RL_FAILED is what
-- a failing system call returns (rlcmd.c compares `waitpid` with it), RL_SUCCESS is zero.
pub record Public : Type 0 where
  pub rl_true : ℤ
  pub rl_false : ℤ
  pub rl_success : ℤ
  pub rl_failed : ℤ
  pub true_lem : rl_true ≡ pos 1
  pub false_lem : rl_false ≡ pos 0
  pub success_lem : rl_success ≡ pos 0
  pub failed_lem : rl_failed ≡ negsuc 0
