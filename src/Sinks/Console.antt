-- ===== src/Sinks/Console.antt =====
-- The names that `ConsoleTarget::from_str` of src/console_impl.rs takes.
use captains_log.Base.{◌≡◌, refl, ◌⊎◌, inl, inr, some, arith, Text, codes, text_eq, text_eq_sound}
use captains_log.Sinks.Config.{ConsoleTarget, stdout, stderr, from_str, to_lowercase}

-- A name of the target, in any case.
abbrev pub Words : ConsoleTarget → Text → Type 0
Words stdout s =
    (to_lowercase s ≡ codes "stdout")
    ⊎ (to_lowercase s ≡ codes "out")
    ⊎ (to_lowercase s ≡ codes "1")
Words stderr s =
    (to_lowercase s ≡ codes "stderr")
    ⊎ (to_lowercase s ≡ codes "err")
    ⊎ (to_lowercase s ≡ codes "2")

pub from_str-Words : (s : Text) (t : ConsoleTarget) → from_str s ≡ some t → Words t s
unfolding from_str
from_str-Words s stdout h =
    let v = to_lowercase s in
    ground (
      arith,
      text_eq_sound v (codes "stdout"),
      text_eq_sound v (codes "out"),
      text_eq_sound v (codes "1"),
    )
from_str-Words s stderr h =
    let v = to_lowercase s in
    ground (
      arith,
      text_eq_sound v (codes "stderr"),
      text_eq_sound v (codes "err"),
      text_eq_sound v (codes "2"),
    )

pub Words-from_str : (s : Text) (t : ConsoleTarget) → Words t s → from_str s ≡ some t
unfolding from_str text_eq
Words-from_str s stdout (inl e) = rw e refl
Words-from_str s stdout (inr (inl e)) = rw e refl
Words-from_str s stdout (inr (inr e)) = rw e refl
Words-from_str s stderr (inl e) = rw e refl
Words-from_str s stderr (inr (inl e)) = rw e refl
Words-from_str s stderr (inr (inr e)) = rw e refl
