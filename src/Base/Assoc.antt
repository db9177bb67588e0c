-- ===== src/Base/Assoc.antt =====
-- Go maps as association lists. `put` overwrites the value in place, or adds the key at the end.
use mathlib.Core.Path.{◌≡◌, refl}
use mathlib.Core.Logic.{ite, if_pos, if_neg}
use mathlib.Core.List.{List, [], ◌∷◌, ◌++◌}
use mathlib.Core.Option.{Option, none, some}
use lachesis_base.Base.Lists.{All}
use native.Mathlib.Omega.{arith}

module _ {ℓ} {K V : Type ℓ} (dec : Discrete K) where
  unfoldable pub find : K → List (K × V) → Option V
  find k [] = none
  find k ((j, v) ∷ m) = ite (dec j k) (some v) (find k m)

  unfoldable pub put : K → V → List (K × V) → List (K × V)
  put k v [] = (k, v) ∷ []
  put k v ((j, w) ∷ m) = ite (dec j k) ((k, v) ∷ m) ((j, w) ∷ put k v m)

  unfoldable pub delete : K → List (K × V) → List (K × V)
  delete k [] = []
  delete k ((j, w) ∷ m) = ite (dec j k) (delete k m) ((j, w) ∷ delete k m)

  -- No key occurs twice.
  abbrev pub IsMap : List (K × V) → Type ℓ
  IsMap [] = Unit
  IsMap ((j, w) ∷ m) = (find j m ≡ none) × IsMap m

  pub find-put :
      (k j : K) (v : V) (m : List (K × V)) → find j (put k v m) ≡ ite (dec k j) (some v) (find j m)
  unfolding find put
  find-put k j v [] = refl
  find-put k j v ((i, w) ∷ m) = ground (arith, find-put k j v m)

  pub find-delete :
      (k j : K) (m : List (K × V)) → find j (delete k m) ≡ ite (dec k j) none (find j m)
  unfolding find delete
  find-delete k j [] = ground arith
  find-delete k j ((i, w) ∷ m) = ground (arith, find-delete k j m)

  pub put-IsMap : (k : K) (v : V) (m : List (K × V)) → IsMap m → IsMap (put k v m)
  unfolding find put
  put-IsMap k v [] h = (refl, tt)
  put-IsMap k v ((i, w) ∷ m) h = elim (dec i k) [
    | yes p ↦ rw (if_pos _ p) (ground arith, h.1)
    | no p ↦ rw (if_neg _ p) (ground (arith, find-put k i v m), put-IsMap k v m h.1)
  ]

  pub delete-IsMap : (k : K) (m : List (K × V)) → IsMap m → IsMap (delete k m)
  unfolding find delete
  delete-IsMap k [] h = tt
  delete-IsMap k ((i, w) ∷ m) h = elim (dec i k) [
    | yes p ↦ rw (if_pos _ p) (delete-IsMap k m h.1)
    | no p ↦ rw (if_neg _ p) (ground (arith, find-delete k i m), delete-IsMap k m h.1)
  ]

  pub put_new :
      (k : K) (w : V) (m : List (K × V)) → find k m ≡ none → put k w m ≡ m ++ ((k, w) ∷ [])
  unfolding find put
  put_new k w [] h = refl
  put_new k w ((j, x) ∷ m) h = ground (arith, put_new k w m)

  pub find-append : (k : K) (a b : List (K × V)) → find k a ≡ none → find k (a ++ b) ≡ find k b
  unfolding find
  find-append k [] b h = refl
  find-append k ((j, x) ∷ a) b h = ground (arith, find-append k a b)

  pub All-put {κ} :
      (P : K × V → Type κ) (k : K) (v : V) (m : List (K × V))
      → P (k, v)
      → All P m
      → All P (put k v m)
  unfolding put
  All-put P k v [] p h = (p, tt)
  All-put P k v ((j, w) ∷ m) p h = elim (dec j k) [
    | yes e ↦ rw (if_pos _ e) (p, h.1)
    | no e ↦ rw (if_neg _ e) (h.0, All-put P k v m p h.1)
  ]

  pub All-delete {κ} :
      (P : K × V → Type κ) (k : K) (m : List (K × V)) → All P m → All P (delete k m)
  unfolding delete
  All-delete P k [] h = tt
  All-delete P k ((j, w) ∷ m) h = elim (dec j k) [
    | yes e ↦ rw (if_pos _ e) (All-delete P k m h.1)
    | no e ↦ rw (if_neg _ e) (h.0, All-delete P k m h.1)
  ]

  -- The keys of the first part do not occur in the second.
  pub IsMap-append_head :
      (k : K) (v : V) (a b : List (K × V)) → IsMap (a ++ ((k, v) ∷ b)) → find k a ≡ none
  unfolding find
  IsMap-append_head k v [] b h = refl
  IsMap-append_head k v ((j, w) ∷ a) b h = elim (dec j k) [
    | yes e ↦ absurd (find-append-here j k v a b e h.0)
    | no e ↦ rw (if_neg _ e) (IsMap-append_head k v a b h.1)
  ]
    where
      find-append-here :
          (j k : K) (v : V) (a b : List (K × V)) → j ≡ k → ¬ (find j (a ++ ((k, v) ∷ b)) ≡ none)
      find-append-here j k v [] b e n = ground arith
      find-append-here j k v ((i, w) ∷ a) b e n = elim (dec i j) [
        | yes p ↦ ground arith
        | no p ↦ find-append-here j k v a b e (ground arith)
      ]
