-- ===== src/Common/Exec.antt =====
-- Code that changes a state and may fail to return: `none` is a fault, or a loop that spins until
-- another thread changes what it tests.
use mathlib.Core.Option.{Option, none, some}

abbrev pub Exec : Type 0 → Type 0 → Type 0
Exec S A = S → Option (A × S)

infixl 5 ◌>>=◌ ◌>>◌
abbrev pub ◌>>=◌ : {S A B : Type 0} → Exec S A → (A → Exec S B) → Exec S B
◌>>=◌ m f s = elim (m s) [ none ↦ none | some (a, t) ↦ f a t ]

abbrev pub ◌>>◌ : {S A B : Type 0} → Exec S A → Exec S B → Exec S B
◌>>◌ m k s = elim (m s) [ none ↦ none | some (_, t) ↦ k t ]

abbrev pub pure : {S A : Type 0} → A → Exec S A
pure a s = some (a, s)

abbrev pub modify : {S : Type 0} → (S → S) → Exec S (Unit {0})
modify f s = some (tt, f s)

abbrev pub get : {S : Type 0} → Exec S S
get s = some (s, s)

abbrev pub stuck : {S A : Type 0} → Exec S A
stuck s = none
