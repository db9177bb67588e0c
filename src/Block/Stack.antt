-- ===== src/Block/Stack.antt =====
-- abft/traversal.go and vecengine/traversal.go: the parents that a walk pushes onto its stack.
use lachesis_base.Base.{ℕ, ◌+◌, ◌≡◌, ◌⊎◌, inl, inr, refl, arith, List, [], ◌∷◌, All, In, length}
use lachesis_base.Block.{push_all}

pub length-push_all : (hs stack : List ℕ) → length (push_all hs stack) ≡ length hs + length stack
unfolding push_all
length-push_all [] stack = omega arith
length-push_all (h ∷ hs) stack = omega (arith, length-push_all hs (h ∷ stack))

pub push_all-In : (x : ℕ) (hs stack : List ℕ) → In x hs ⊎ In x stack → In x (push_all hs stack)
unfolding push_all
push_all-In x [] stack (inr h) = h
push_all-In x [] stack (inl h) = elim h [ ]
push_all-In x (h ∷ hs) stack (inl (inl e)) = push_all-In x hs (h ∷ stack) (inr (inl e))
push_all-In x (h ∷ hs) stack (inl (inr i)) = push_all-In x hs (h ∷ stack) (inl i)
push_all-In x (h ∷ hs) stack (inr i) = push_all-In x hs (h ∷ stack) (inr (inr i))

pub All-push_all {κ} :
    (P : ℕ → Type κ) (hs stack : List ℕ)
    → ((x : ℕ) → In x hs → P x)
    → All P stack
    → All P (push_all hs stack)
unfolding push_all
All-push_all P [] stack p a = a
All-push_all P (h ∷ hs) stack p a =
    All-push_all P hs (h ∷ stack) (λ x i. p x (inr i)) (p h (inl refl), a)
