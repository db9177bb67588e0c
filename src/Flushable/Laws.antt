-- ===== src/Flushable/Laws.antt =====
-- What kvdb/flushable/flushable.go relies on: a tree is a map, and a batch of the database below
-- holds the writes that were put into it.
use lachesis_base.Base.{
  ◌≡◌, refl, sym, ap, ◌∙◌, arith, Option, none, some, List, [], ◌∷◌, ◌++◌, ite, find, IsMap,
  ℕ_discrete, if_pos, if_neg,
}
use lachesis_base.Flushable.{Bytes, Result, ok, TreeOps, StoreOps}

-- Keys compare byte by byte.
unfoldable pub bytes_discrete : Discrete Bytes
bytes_discrete [] [] = yes refl
bytes_discrete [] (y ∷ ys) = no (λ e. absurd (ground (arith, e)))
bytes_discrete (x ∷ xs) [] = no (λ e. absurd (ground (arith, e)))
bytes_discrete (x ∷ xs) (y ∷ ys) = elim (ℕ_discrete x y) [
  | no n ↦ no (λ e. absurd (ground (arith, e, n)))
  | yes p ↦ elim (bytes_discrete xs ys) [
    | no n ↦ no (λ e. n (ap (rest xs) e))
    | yes q ↦ yes (ap (λ z. z ∷ xs) p ∙ ap (◌∷◌ y) q)
  ]
]
  where
    rest : Bytes → Bytes → Bytes
    rest d [] = d
    rest d (z ∷ zs) = zs

abbrev pub first_some : Option (Option Bytes) → Option (Option Bytes) → Option (Option Bytes)
first_some none v = v
first_some (some w) v = some w

-- The last of the writes to a key.
abbrev pub last_write : Bytes → List (Bytes × Option Bytes) → Option (Option Bytes)
last_write key [] = none
last_write key ((k, v) ∷ ws) =
    first_some (last_write key ws) (ite (bytes_discrete k key) (some v) none)

-- A value that was written, or what was there.
abbrev pub over : Option (Option Bytes) → Result (Option Bytes) → Result (Option Bytes)
over none r = r
over (some v) r = ok v

pub record IsTree {T : Type 0} (tree : TreeOps T) : Type 0 where
  pub get-empty : (k : Bytes) → tree.get k tree.empty ≡ none
  pub get-put :
      (k j : Bytes) (v : Option Bytes) (t : T)
      → tree.get j (tree.put k v t) ≡ ite (bytes_discrete k j) (some v) (tree.get j t)
  pub find-entries : (k : Bytes) (t : T) → find bytes_discrete k (tree.entries t) ≡ tree.get k t
  pub entries-IsMap : (t : T) → IsMap bytes_discrete (tree.entries t)

pub record IsStore {S B : Type 0} (store : StoreOps S B) : Type 0 where
  -- What a batch holds, in order.
  pub pending : B → List (Bytes × Option Bytes)
  pub pending-new : pending store.new_batch ≡ []
  pub pending-reset : (b : B) → pending (store.reset b) ≡ []
  pub pending-put :
      (k v : Bytes) (b : B)
      → (store.batch_put k v b).1 ≡ none
      → pending (store.batch_put k v b).0 ≡ pending b ++ ((k, some v) ∷ [])
  pub pending-delete :
      (k : Bytes) (b : B)
      → (store.batch_delete k b).1 ≡ none
      → pending (store.batch_delete k b).0 ≡ pending b ++ ((k, none) ∷ [])
  -- A write that does not fail makes all of them.
  pub get-write :
      (k : Bytes) (b : B) (s : S)
      → (store.write b s).1 ≡ none
      → store.get (store.write b s).0 k ≡ over (last_write k (pending b)) (store.get s k)
  -- A write, also one that fails, leaves the other keys.
  pub get-write_other :
      (k : Bytes) (b : B) (s : S)
      → last_write k (pending b) ≡ none
      → store.get (store.write b s).0 k ≡ store.get s k

pub last_write-append :
    (k : Bytes) (a b : List (Bytes × Option Bytes))
    → last_write k (a ++ b) ≡ first_some (last_write k b) (last_write k a)
last_write-append k [] b = first_some-none (last_write k b)
  where
    first_some-none : (o : Option (Option Bytes)) → o ≡ first_some o none
    first_some-none none = refl
    first_some-none (some x) = refl
last_write-append k ((j, v) ∷ a) b =
    ap (λ o. first_some o (ite (bytes_discrete j k) (some v) none)) (last_write-append k a b)
    ∙ first_some_assoc (last_write k b) (last_write k a) _
  where
    first_some_assoc :
        (o p q : Option (Option Bytes))
        → first_some (first_some o p) q ≡ first_some o (first_some p q)
    first_some_assoc none p q = refl
    first_some_assoc (some x) p q = refl

-- In a map the only write to a key is the last one.
pub last_write-find :
    (k : Bytes) (m : List (Bytes × Option Bytes))
    → IsMap bytes_discrete m
    → last_write k m ≡ find bytes_discrete k m
unfolding find
last_write-find k [] h = refl
last_write-find k ((j, v) ∷ m) h = elim (bytes_discrete j k) [
  | yes p ↦
      let gone : last_write k m ≡ none =
        last_write-find k m h.1 ∙ ap (λ i. find bytes_discrete i m) (sym p) ∙ h.0 in
      rw
        (
          gone,
          if_pos (bytes_discrete j k) p (some v) none,
          if_pos (bytes_discrete j k) p (some v) (find bytes_discrete k m),
        )
        refl
  | no n ↦
      rw
        (
          if_neg (bytes_discrete j k) n (some v) none,
          if_neg (bytes_discrete j k) n (some v) (find bytes_discrete k m),
        )
        (drop_none (last_write k m) ∙ last_write-find k m h.1)
]
  where
    drop_none : (o : Option (Option Bytes)) → first_some o none ≡ o
    drop_none none = refl
    drop_none (some x) = refl
