-- ===== src/Flushable.antt =====
-- kvdb/flushable/flushable.go: a database whose writes wait in memory until they are flushed.
-- The red-black tree and the database below are arguments, as the operations that the code calls;
-- what it relies on is in Flushable/Laws. Keys and values are lists of bytes, and nil is `none`. The
-- lock makes every operation a step.
pub mod Laws
pub mod Views
pub mod Flushes
pub mod Batches
pub mod Tests
use lachesis_base.Base.{
  ℕ, ◌+◌, ◌*◌, ◌%◌, ◌^◌, Bool, true, false, Option, none, some, List, [], ◌∷◌, ◌++◌, length, ltb,
  if◌then◌else◌,
}

abbrev pub Bytes : Type 0
Bytes = List ℕ

-- A value, the error of a closed database, or an error of the database below.
pub data Result (A : Type 0) : Type 0 where
  ok : A → Result A
  closed : Result A
  failed : ℕ → Result A

-- How an operation without a value ends.
pub data Done : Type 0 where
  done : Done
  err_closed : Done
  err_nil : Done
  err_below : ℕ → Done
  panicked : Done

-- The red-black tree; a deleted key has the value nil.
pub record TreeOps (T : Type 0) : Type 0 where
  pub empty : T
  pub put : Bytes → Option Bytes → T → T
  pub get : Bytes → T → Option (Option Bytes)
  pub entries : T → List (Bytes × Option Bytes)

-- The database below and its batches.
pub record StoreOps (S B : Type 0) : Type 0 where
  pub has : S → Bytes → Result Bool
  pub get : S → Bytes → Result (Option Bytes)
  pub close : S → S × Option ℕ
  pub new_batch : B
  pub batch_put : Bytes → Bytes → B → B × Option ℕ
  pub batch_delete : Bytes → B → B × Option ℕ
  pub value_size : B → ℕ
  pub write : B → S → S × Option ℕ
  pub reset : B → B

-- `Flushable`; the tree is nil when the database is closed. The size is a 64-bit int.
pub record Flushable (T S : Type 0) : Type 0 where
  pub underlying : S
  pub modified : Option T
  pub size_estimation : ℕ

-- A nil key of a read or a deletion is the empty key, by its conversion to a string.
abbrev pub bytes_of : Option Bytes → Bytes
bytes_of none = []
bytes_of (some key) = key

abbrev pub done_or : Option ℕ → Done
done_or none = done
done_or (some err) = err_below err

-- kvdb/interface.go
abbrev pub ideal_batch_size : ℕ
ideal_batch_size = 100 * 1024

abbrev pub add_size : ℕ → ℕ → ℕ
add_size a b = (a + b) % 2 ^ 64

abbrev pub is_there : Option Bytes → Bool
is_there none = false
is_there (some v) = true

module _ {T S B : Type 0} (tree : TreeOps T) (store : StoreOps S B) where
  -- `Wrap`
  abbrev pub wrap : S → Flushable T S
  wrap parent = record { underlying = parent; modified = some tree.empty; size_estimation = 0 }

  -- `put` and `delete`, on the tree of an open database.
  abbrev pub put_in : T → Bytes → Bytes → Flushable T S → Flushable T S
  put_in t key value w = record w {
    modified = some (tree.put key (some value) t);
    size_estimation = add_size w.size_estimation (length key + length value + 128);
  }

  abbrev pub delete_in : T → Bytes → Flushable T S → Flushable T S
  delete_in t key w = record w {
    modified = some (tree.put key none t);
    size_estimation = add_size w.size_estimation (length key + 128);
  }

  -- `Put`. A write into the nil tree of a closed database panics.
  unfoldable pub put : Option Bytes → Option Bytes → Flushable T S → Flushable T S × Done
  put none value w = (w, err_nil)
  put (some key) none w = (w, err_nil)
  put (some key) (some value) w = elim w.modified [
    | none ↦ (w, panicked)
    | some t ↦ (put_in t key value w, done)
  ]

  -- `Delete`
  unfoldable pub delete : Bytes → Flushable T S → Flushable T S × Done
  delete key w = elim w.modified [ none ↦ (w, panicked) | some t ↦ (delete_in t key w, done) ]

  -- `Has`
  unfoldable pub has : Bytes → Flushable T S → Result Bool
  has key w = elim w.modified [
    | none ↦ closed
    | some t ↦ elim (tree.get key t) [
      | some v ↦ ok (is_there v)
      | none ↦ store.has w.underlying key
    ]
  ]

  -- `Get`; nil is an absent value.
  unfoldable pub get : Bytes → Flushable T S → Result (Option Bytes)
  get key w = elim w.modified [
    | none ↦ closed
    | some t ↦ elim (tree.get key t) [ some v ↦ ok v | none ↦ store.get w.underlying key ]
  ]

  -- `DropNotFlushed`
  unfoldable pub drop_not_flushed : Flushable T S → Flushable T S × Done
  drop_not_flushed w = elim w.modified [
    | none ↦ (w, panicked)
    | some t ↦ (record w { modified = some tree.empty; size_estimation = 0 }, done)
  ]

  -- `Close`
  unfoldable pub close : Flushable T S → Flushable T S × Done
  close w = elim w.modified [
    | none ↦ (w, err_closed)
    | some t ↦
        let (s, err) = store.close w.underlying in
        (record { underlying = s; modified = none; size_estimation = 0 }, done_or err)
  ]

  -- `Drop`, with the callback `on_drop`.
  unfoldable pub drop : (S → S) → Flushable T S → Flushable T S × Done
  drop on_drop w = elim w.modified [
    | none ↦ (record w { underlying = on_drop w.underlying }, done)
    | some t ↦ (w, panicked)
  ]

  -- `NotFlushedPairs`; a nil tree panics.
  abbrev pub not_flushed_pairs : Flushable T S → Option ℕ
  not_flushed_pairs w = elim w.modified [ none ↦ none | some t ↦ some (length (tree.entries t)) ]

  abbrev pub batch_one : Bytes → Option Bytes → B → B × Option ℕ
  batch_one key none batch = store.batch_delete key batch
  batch_one key (some value) batch = store.batch_put key value batch

  -- The loop of `flush` over the tree, and the last write.
  unfoldable pub flush_loop : List (Bytes × Option Bytes) → B → S → S × Option ℕ
  flush_loop [] batch s = store.write batch s
  flush_loop ((key, value) ∷ es) batch s =
      let (batch', err) = batch_one key value batch in
      elim err [
        | some e ↦ (s, some e)
        | none ↦
            let (s', err') = store.write batch' s in
            if ltb ideal_batch_size (store.value_size batch')
            then elim err' [ some e ↦ (s', some e) | none ↦ flush_loop es (store.reset batch') s' ]
            else flush_loop es batch' s
      ]

  abbrev pub flushed : Flushable T S → S × Option ℕ → Flushable T S × Done
  flushed w (s, none) =
      (record { underlying = s; modified = some tree.empty; size_estimation = 0 }, done)
  flushed w (s, some err) = (record w { underlying = s }, err_below err)

  -- `Flush`
  unfoldable pub flush : Flushable T S → Flushable T S × Done
  unfolding flush_loop
  flush w = elim w.modified [
    | none ↦ (w, err_closed)
    | some t ↦ flushed w (flush_loop (tree.entries t) store.new_batch w.underlying)
  ]

  unfoldable pub copy_into : List (Bytes × Option Bytes) → T → T
  copy_into [] t = t
  copy_into ((key, value) ∷ es) t = copy_into es (tree.put key value t)

  -- `GetSnapshot` on an open database, over a snapshot of the one below.
  abbrev pub snapshot : S → T → Flushable T S
  snapshot parent_snap t = record {
    underlying = parent_snap;
    modified = some (copy_into (tree.entries t) tree.empty);
    size_estimation = 0;
  }

-- `cacheBatch`; a nil value deletes, and a nil key stays nil.
pub record CacheBatch : Type 0 where
  pub writes : List (Option Bytes × Option Bytes)
  pub size : ℕ

abbrev pub new_batch : CacheBatch
new_batch = record { writes = []; size = 0 }

abbrev pub length_of : Option Bytes → ℕ
length_of none = 0
length_of (some v) = length v

unfoldable pub batch_put : Option Bytes → Option Bytes → CacheBatch → CacheBatch
batch_put key value b = record {
  writes = b.writes ++ ((key, value) ∷ []);
  size = add_size b.size (length_of value + length_of key);
}

unfoldable pub batch_delete : Option Bytes → CacheBatch → CacheBatch
batch_delete key b = record {
  writes = b.writes ++ ((key, none) ∷ []);
  size = add_size b.size (length_of key);
}

abbrev pub reset : CacheBatch → CacheBatch
reset b = new_batch

module _ {T S B : Type 0} (tree : TreeOps T) (store : StoreOps S B) where
  -- The loop of `Write` over an open database.
  unfoldable pub write_loop : List (Option Bytes × Option Bytes) → T → Flushable T S → Flushable T S
  write_loop [] t w = w
  write_loop ((key, none) ∷ ws) t w =
      write_loop ws (tree.put (bytes_of key) none t) (delete_in tree store t (bytes_of key) w)
  write_loop ((key, some value) ∷ ws) t w =
      write_loop ws (tree.put (bytes_of key) (some value) t)
        (put_in tree store t (bytes_of key) value w)

  -- `Write`
  unfoldable pub batch_write : CacheBatch → Flushable T S → Flushable T S × Done
  unfolding write_loop
  batch_write b w = elim w.modified [
    | none ↦ (w, err_closed)
    | some t ↦ (write_loop b.writes t w, done)
  ]

-- `Replay` on a writer with these operations.
unfoldable pub replay_loop {ℓ} :
    {W : Type ℓ}
    → (Option Bytes → Option Bytes → W → W × Done)
    → (Option Bytes → W → W × Done)
    → List (Option Bytes × Option Bytes)
    → W
    → W × Done
replay_loop put delete [] w = (w, done)
replay_loop put delete ((key, none) ∷ ws) w =
    let (w', d) = delete key w in
    elim d [
      | done ↦ replay_loop put delete ws w'
      | err_closed ↦ (w', err_closed)
      | err_nil ↦ (w', err_nil)
      | err_below e ↦ (w', err_below e)
      | panicked ↦ (w', panicked)
    ]
replay_loop put delete ((key, some value) ∷ ws) w =
    let (w', d) = put key (some value) w in
    elim d [
      | done ↦ replay_loop put delete ws w'
      | err_closed ↦ (w', err_closed)
      | err_nil ↦ (w', err_nil)
      | err_below e ↦ (w', err_below e)
      | panicked ↦ (w', panicked)
    ]

abbrev pub replay {ℓ} :
    {W : Type ℓ}
    → (Option Bytes → Option Bytes → W → W × Done)
    → (Option Bytes → W → W × Done)
    → CacheBatch
    → W
    → W × Done
replay put delete b w = replay_loop put delete b.writes w
