-- ===== src/Flushable/Views.antt =====
-- kvdb/flushable/flushable.go: what a reader of the database sees, as a map from keys to values.
use lachesis_base.Base.{
  ℕ, ◌≡◌, refl, sym, ap, ◌∙◌, Bool, Option, none, some, List, [], ◌∷◌, ite, Option-cases, inl, inr,
}
use lachesis_base.Flushable.{
  Bytes, Result, ok, closed, failed, done, TreeOps, StoreOps, Flushable, put, delete, has, get,
  drop_not_flushed, put_in, delete_in, is_there, copy_into, snapshot,
}
use lachesis_base.Flushable.Laws.{
  bytes_discrete, IsTree, over, last_write, first_some, last_write-find,
}

-- What `Has` says of what `Get` gives.
abbrev pub presence : Result (Option Bytes) → Result Bool
presence (ok v) = ok (is_there v)
presence closed = closed
presence (failed e) = failed e

module _ {T S B : Type 0} (tree : TreeOps T) (store : StoreOps S B) where
  -- An open database with this tree shows a key.
  pub get_open :
      (w : Flushable T S) (t : T) (k : Bytes)
      → w.modified ≡ some t
      → get tree store k w ≡ over (tree.get k t) (store.get w.underlying k)
  unfolding get
  get_open w t k o = elim (Option-cases (tree.get k t)) [
    | inl n ↦ rw (get, o, n) refl
    | inr (v, n) ↦ rw (get, o, n) refl
  ]

  over_ite :
      {P : Type 0} (d : Dec P) (v : Option Bytes) (o : Option (Option Bytes))
      (r : Result (Option Bytes))
      → over (ite d (some v) o) r ≡ ite d (ok v) (over o r)
  over_ite (yes p) v o r = refl
  over_ite (no p) v o r = refl

  pub get_open-put :
      (laws : IsTree tree) (w : Flushable T S) (t : T) (k j : Bytes) (v : Option Bytes) (n : ℕ)
      → w.modified ≡ some t
      → get tree store j (record w { modified = some (tree.put k v t); size_estimation = n })
        ≡ ite (bytes_discrete k j) (ok v) (get tree store j w)
  get_open-put laws w t k j v n o =
      get_open (record w { modified = some (tree.put k v t); size_estimation = n }) (tree.put k v t)
        j refl
      ∙ ap (λ x. over x (store.get w.underlying j)) (laws.get-put k j v t)
      ∙ over_ite (bytes_discrete k j) v (tree.get j t) (store.get w.underlying j)
      ∙ ap (λ r. ite (bytes_discrete k j) (ok v) r) (sym (get_open w t j o))

  -- On an open database `Put` and `Delete` succeed and change what readers see at their key, and
  -- nowhere else: the key has the new value, or none.
  pub put-get :
      (laws : IsTree tree) (w : Flushable T S) (t : T) (k v j : Bytes)
      → w.modified ≡ some t
      → ((put tree store (some k) (some v) w).1 ≡ done)
        × (get tree store j (put tree store (some k) (some v) w).0
            ≡ ite (bytes_discrete k j) (ok (some v)) (get tree store j w))
        × ((delete tree store k w).1 ≡ done)
        × (get tree store j (delete tree store k w).0
            ≡ ite (bytes_discrete k j) (ok none) (get tree store j w))
  unfolding put delete
  put-get laws w t k v j o =
      let p : put tree store (some k) (some v) w ≡ (put_in tree store t k v w, done) =
        rw (put, o) refl in
      let d : delete tree store k w ≡ (delete_in tree store t k w, done) = rw (delete, o) refl in
      (
        ap (λ r. r.1) p,
        ap (λ r. get tree store j r.0) p ∙ get_open-put laws w t k j (some v) _ o,
        ap (λ r. r.1) d,
        ap (λ r. get tree store j r.0) d ∙ get_open-put laws w t k j none _ o,
      )

  -- `Has` agrees with `Get`, open or closed, if it does in the database below.
  pub has-get :
      (w : Flushable T S) (k : Bytes)
      → store.has w.underlying k ≡ presence (store.get w.underlying k)
      → has tree store k w ≡ presence (get tree store k w)
  unfolding has get
  has-get w k h = elim (Option-cases w.modified) [
    | inl n ↦ rw (has, get, n) refl
    | inr (t, o) ↦ elim (Option-cases (tree.get k t)) [
      | inl n ↦ rw (has, get, o, n) h
      | inr (v, n) ↦ rw (has, get, o, n) refl
    ]
  ]

  -- After `DropNotFlushed` an open database shows what the database below holds.
  pub get-drop_not_flushed :
      (laws : IsTree tree) (w : Flushable T S) (t : T) (k : Bytes)
      → w.modified ≡ some t
      → get tree store k (drop_not_flushed tree store w).0 ≡ store.get w.underlying k
  unfolding drop_not_flushed
  get-drop_not_flushed laws w t k o =
      let p : drop_not_flushed tree store w
          ≡ (record w { modified = some tree.empty; size_estimation = 0 }, done) =
        rw (drop_not_flushed, o) refl in
      ap (λ r. get tree store k r.0) p
      ∙ get_open (record w { modified = some tree.empty; size_estimation = 0 }) tree.empty k refl
      ∙ ap (λ x. over x (store.get w.underlying k)) (laws.get-empty k)

  get-copy_into :
      (laws : IsTree tree) (k : Bytes) (es : List (Bytes × Option Bytes)) (t : T)
      → tree.get k (copy_into tree store es t) ≡ first_some (last_write k es) (tree.get k t)
  unfolding copy_into
  get-copy_into laws k [] t = refl
  get-copy_into laws k ((j, v) ∷ es) t =
      get-copy_into laws k es (tree.put j v t)
      ∙ ap (first_some (last_write k es)) (laws.get-put j k v t ∙ as_some (bytes_discrete j k))
      ∙ assoc (last_write k es)
    where
      as_some :
          {P : Type 0} (d : Dec P)
          → ite d (some v) (tree.get k t) ≡ first_some (ite d (some v) none) (tree.get k t)
      as_some (yes p) = refl
      as_some (no p) = refl

      assoc :
          (o : Option (Option Bytes))
          → first_some o (first_some (ite (bytes_discrete j k) (some v) none) (tree.get k t))
            ≡ first_some (first_some o (ite (bytes_discrete j k) (some v) none)) (tree.get k t)
      assoc none = refl
      assoc (some x) = refl

  -- A snapshot of an open database shows what the database shows, over a snapshot of the database
  -- below that does so for that one.
  pub get-snapshot :
      (laws : IsTree tree) (w : Flushable T S) (t : T) (snap : S) (k : Bytes)
      → w.modified ≡ some t
      → store.get snap k ≡ store.get w.underlying k
      → get tree store k (snapshot tree store snap t) ≡ get tree store k w
  get-snapshot laws w t snap k o below =
      let copy = copy_into tree store (tree.entries t) tree.empty in
      let same : tree.get k copy ≡ tree.get k t =
        get-copy_into laws k (tree.entries t) tree.empty
        ∙ ap (first_some (last_write k (tree.entries t))) (laws.get-empty k)
        ∙ drop_none (last_write k (tree.entries t))
        ∙ last_write-find k (tree.entries t) (laws.entries-IsMap t)
        ∙ laws.find-entries k t in
      get_open (snapshot tree store snap t) copy k refl
      ∙ ap (λ x. over x (store.get snap k)) same
      ∙ ap (over (tree.get k t)) below
      ∙ sym (get_open w t k o)
    where
      drop_none : (o : Option (Option Bytes)) → first_some o none ≡ o
      drop_none none = refl
      drop_none (some x) = refl
