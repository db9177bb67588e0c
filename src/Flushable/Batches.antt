-- ===== src/Flushable/Batches.antt =====
-- kvdb/flushable/flushable.go, `cacheBatch`: what a write of a batch does, and its replay.
use mathlib.Core.List.{append-nil}
use lachesis_base.Base.{
  ◌++◌, map, All, ◌≡◌, refl, sym, ap, ◌∙◌, Option, none, some, List, [], ◌∷◌, ite,
}
use lachesis_base.Flushable.{
  Bytes, Result, ok, Done, done, err_closed, err_nil, err_below, panicked, TreeOps, StoreOps,
  Flushable, CacheBatch, get, put, delete, put_in, delete_in, write_loop, batch_write, replay_loop,
  replay, bytes_of,
}
use lachesis_base.Flushable.Laws.{bytes_discrete, IsTree, over, last_write, first_some}
use lachesis_base.Flushable.Views.{get_open-put}

-- The writes, with the keys as the database takes them.
abbrev pub keyed : List (Option Bytes × Option Bytes) → List (Bytes × Option Bytes)
keyed = map (λ w. (bytes_of w.0, w.1))

-- A write that puts a value has a key.
abbrev pub IsKeyed : Option Bytes × Option Bytes → Type 0
IsKeyed (k, none) = Unit
IsKeyed (some k, some v) = Unit
IsKeyed (none, some v) = ⊥

module _ {T S B : Type 0} (tree : TreeOps T) (store : StoreOps S B) where
  over_first :
      {P : Type 0} (d : Dec P) (v : Option Bytes) (o : Option (Option Bytes))
      (r : Result (Option Bytes))
      → over o (ite d (ok v) r) ≡ over (first_some o (ite d (some v) none)) r
  over_first (yes p) v none r = refl
  over_first (yes p) v (some x) r = refl
  over_first (no p) v none r = refl
  over_first (no p) v (some x) r = refl

  write_loop-get :
      (laws : IsTree tree) (ws : List (Option Bytes × Option Bytes)) (t : T) (w : Flushable T S)
      (k : Bytes)
      → w.modified ≡ some t
      → get tree store k (write_loop tree store ws t w)
        ≡ over (last_write k (keyed ws)) (get tree store k w)
  unfolding write_loop
  write_loop-get laws [] t w k o = refl
  write_loop-get laws ((j, none) ∷ ws) t w k o =
      write_loop-get laws ws (tree.put (bytes_of j) none t) (delete_in tree store t (bytes_of j) w)
        k refl
      ∙ ap (over (last_write k (keyed ws)))
          (get_open-put tree store laws w t (bytes_of j) k none _ o)
      ∙ over_first (bytes_discrete (bytes_of j) k) none (last_write k (keyed ws))
          (get tree store k w)
  write_loop-get laws ((j, some v) ∷ ws) t w k o =
      write_loop-get laws ws (tree.put (bytes_of j) (some v) t)
        (put_in tree store t (bytes_of j) v w) k refl
      ∙ ap (over (last_write k (keyed ws)))
          (get_open-put tree store laws w t (bytes_of j) k (some v) _ o)
      ∙ over_first (bytes_discrete (bytes_of j) k) (some v) (last_write k (keyed ws))
          (get tree store k w)

  abbrev write_of : CacheBatch → Flushable T S → Option T → Flushable T S × Done
  write_of b w m = elim m [
    | none ↦ (w, err_closed)
    | some t ↦ (write_loop tree store b.writes t w, done)
  ]

  write_open :
      (b : CacheBatch) (w : Flushable T S) (t : T)
      → w.modified ≡ some t
      → batch_write tree store b w ≡ (write_loop tree store b.writes t w, done)
  unfolding batch_write
  write_open b w t o = ap (write_of b w) o

  -- A write of a batch on an open database succeeds; then every key of the batch shows the last
  -- value that the batch has for it, and every other key what it showed.
  pub get-batch_write :
      (laws : IsTree tree) (b : CacheBatch) (w : Flushable T S) (t : T) (k : Bytes)
      → w.modified ≡ some t
      → ((batch_write tree store b w).1 ≡ done)
        × (get tree store k (batch_write tree store b w).0
            ≡ over (last_write k (keyed b.writes)) (get tree store k w))
  get-batch_write laws b w t k o = (
    ap (λ r. r.1) (write_open b w t o),
    ap (λ r. get tree store k r.0) (write_open b w t o) ∙ write_loop-get laws b.writes t w k o,
  )

  abbrev put_of : Bytes → Bytes → Flushable T S → Option T → Flushable T S × Done
  put_of k v w m = elim m [ none ↦ (w, panicked) | some t ↦ (put_in tree store t k v w, done) ]

  put_open :
      (k v : Bytes) (w : Flushable T S) (t : T)
      → w.modified ≡ some t
      → put tree store (some k) (some v) w ≡ (put_in tree store t k v w, done)
  unfolding put
  put_open k v w t o = ap (put_of k v w) o

  abbrev delete_of : Bytes → Flushable T S → Option T → Flushable T S × Done
  delete_of k w m = elim m [ none ↦ (w, panicked) | some t ↦ (delete_in tree store t k w, done) ]

  delete_open :
      (k : Bytes) (w : Flushable T S) (t : T)
      → w.modified ≡ some t
      → delete tree store k w ≡ (delete_in tree store t k w, done)
  unfolding delete
  delete_open k w t o = ap (delete_of k w) o

  abbrev continue_with :
      (Flushable T S → Flushable T S × Done) → Flushable T S × Done → Flushable T S × Done
  continue_with f (w, d) = elim d [
    | done ↦ f w
    | err_closed ↦ (w, err_closed)
    | err_nil ↦ (w, err_nil)
    | err_below e ↦ (w, err_below e)
    | panicked ↦ (w, panicked)
  ]

  -- `Delete`, as a writer.
  abbrev pub deletes : Option Bytes → Flushable T S → Flushable T S × Done
  deletes k = delete tree store (bytes_of k)

  replay_loop-append :
      (ws rest : List (Option Bytes × Option Bytes)) (t : T) (w : Flushable T S)
      → w.modified ≡ some t
      → All IsKeyed ws
      → replay_loop (put tree store) deletes (ws ++ rest) w
        ≡ replay_loop (put tree store) deletes rest (write_loop tree store ws t w)
  unfolding replay_loop write_loop
  replay_loop-append [] rest t w o h = refl
  replay_loop-append ((k, none) ∷ ws) rest t w o h =
      ap (continue_with (replay_loop (put tree store) deletes (ws ++ rest)))
        (delete_open (bytes_of k) w t o)
      ∙ replay_loop-append ws rest (tree.put (bytes_of k) none t)
          (delete_in tree store t (bytes_of k) w) refl h.1
  replay_loop-append ((none, some v) ∷ ws) rest t w o h = absurd h.0
  replay_loop-append ((some k, some v) ∷ ws) rest t w o h =
      ap (continue_with (replay_loop (put tree store) deletes (ws ++ rest))) (put_open k v w t o)
      ∙ replay_loop-append ws rest (tree.put k (some v) t) (put_in tree store t k v w) refl h.1

  stops :
      (v : Bytes) (post : List (Option Bytes × Option Bytes)) (w : Flushable T S)
      → replay_loop (put tree store) deletes ((none, some v) ∷ post) w ≡ (w, err_nil)
  unfolding replay_loop put
  stops v post w = refl

  -- A replay of a batch on an open database, which makes its writes one by one, is the write of the
  -- batch, if every value of the batch is put for a key that is not nil. Otherwise it makes the writes
  -- before the first value for a nil key, and ends with an error there.
  pub replay-batch_write :
      (b : CacheBatch) (w : Flushable T S) (t : T)
      → w.modified ≡ some t
      → (All IsKeyed b.writes → replay (put tree store) deletes b w ≡ batch_write tree store b w)
        × ((pre post : List (Option Bytes × Option Bytes)) (v : Bytes)
            → b.writes ≡ pre ++ ((none, some v) ∷ post)
            → All IsKeyed pre
            → replay (put tree store) deletes b w
              ≡ ((batch_write tree store (record b { writes = pre }) w).0, err_nil))
  unfolding replay_loop
  replay-batch_write b w t o = (
    λ h.
        ap (λ ws. replay_loop (put tree store) deletes ws w) (sym (append-nil b.writes))
        ∙ replay_loop-append b.writes [] t w o h
        ∙ sym (write_open b w t o),
    λ pre post v e h.
        ap (λ ws. replay_loop (put tree store) deletes ws w) e
        ∙ replay_loop-append pre ((none, some v) ∷ post) t w o h
        ∙ stops v post (write_loop tree store pre t w)
        ∙ ap (λ r. (r.0, err_nil)) (sym (write_open (record b { writes = pre }) w t o)),
  )
