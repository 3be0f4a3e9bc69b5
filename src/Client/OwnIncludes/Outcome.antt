-- ===== src/Client/OwnIncludes/Outcome.antt =====
-- How a recursion ends: with a result, in a panic or an endless scan of a file, or out of fuel.
pub data Run (A : Type 0) : Type 0 where
  went : A → Run A
  stuck : Run A
  spent : Run A

infixr 10 ◌then◌
unfoldable pub ◌then◌ : {A B : Type 0} → Run A → (A → Run B) → Run B
went x then f = f x
stuck then f = stuck
spent then f = spent

-- It does not run out of fuel, and what it ends with has a property.
abbrev pub Holds : {A : Type 0} → (A → Type 0) → Run A → Type 0
Holds P (went x) = P x
Holds P stuck = Unit
Holds P spent = ⊥

pub then-Holds :
    {A B : Type 0} (P : A → Type 0) (Q : B → Type 0) (m : Run A) (f : A → Run B)
    → Holds P m
    → ((x : A) → P x → Holds Q (f x))
    → Holds Q (m then f)
unfolding ◌then◌
then-Holds P Q (went x) f h k = k x h
then-Holds P Q stuck f h k = tt
then-Holds P Q spent f h k = h

pub weaken-Holds :
    {A : Type 0} (P Q : A → Type 0) (m : Run A) → ((x : A) → P x → Q x) → Holds P m → Holds Q m
weaken-Holds P Q (went x) k h = k x h
weaken-Holds P Q stuck k h = tt
weaken-Holds P Q spent k h = h
