-- ===== src/Service.antt =====
-- srvc_lib/src/pidfile.c and service.c, and `start` of srvc_lib/src/main.c and srvc_runner/src/main.c: a service that
-- is kept running behind a pid file. What the processes see of the kernel is the file behind each path, which only
-- they change, and the answers to their calls.
pub mod Decimal
pub mod PidFile
pub mod Start
pub mod Clean
pub mod Stop
pub mod Main
use smtp_course_work.Base.{
  ℕ, Bool, true, false, Option, none, some, List, [], ◌∷◌, Bytes, ◌==◌, if◌then◌else◌,
}

-- `==` of paths
abbrev pub same_path : Bytes → Bytes → Bool
same_path [] [] = true
same_path [] (c ∷ q) = false
same_path (c ∷ p) [] = false
same_path (c ∷ p) (d ∷ q) = let rest = same_path p q in if c == d then rest else false
