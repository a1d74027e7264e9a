-- ===== src/Ldb/Updates.antt =====
-- What leveldb promises of batches, and the triggers that only add updates to a batch.
use mathlib.Core.List.{append_assoc, append-nil}
use libglim.Base.{ℕ, ◌≡◌, refl, ap, ◌∙◌, Option, none, some, List, [], ◌∷◌, ◌++◌, if◌then◌else◌}
use libglim.Compare.{equals}
use libglim.Ldb.Store.{
  fine, not_found, put_update, delete_update, Batch, Level, Outcome, returned, Slots, Trigger,
  Triggers, each_trigger,
}

-- What is found at each key.
abbrev pub Contents : Type 0
Contents = List ℕ → Option (List ℕ)

unfoldable pub applied : Batch → Contents → Contents
applied [] c = c
applied (put_update k v ∷ batch) c = applied batch (λ k'. if equals k k' then some v else c k')
applied (delete_update k ∷ batch) c = applied batch (λ k'. if equals k k' then none else c k')

pub applied-append : (a b : Batch) (c : Contents) → applied (a ++ b) c ≡ applied b (applied a c)
unfolding applied
applied-append [] b c = refl
applied-append (put_update k v ∷ a) b c = applied-append a b _
applied-append (delete_update k ∷ a) b c = applied-append a b _

-- What leveldb promises: a batch that is written is applied as a whole, and reads see it.
pub record Promises {D : Type 0} (L : Level D) : Type 0 where
  pub contents : D → Contents
  pub write_law :
      (batch : Batch) (db : D)
      → (L.write batch db).0 ≡ fine
      → contents (L.write batch db).1 ≡ applied batch (contents db)
  pub get_law : (k v : List ℕ) (db : D) → L.get k db ≡ (fine, v) → contents db k ≡ some v
  pub missing_law : (k v : List ℕ) (db : D) → L.get k db ≡ (not_found, v) → contents db k ≡ none

module _ {D K V : Type 0} (call : Trigger D K V → Slots D → Outcome (Slots D) (Unit {0})) where
  -- The call adds updates to the batch, which follow from the bytes of the key and the value.
  abbrev pub Adds : Trigger D K V → Type 0
  Adds trigger =
      (updates : List ℕ → List ℕ → Batch) × ((s : Slots D)
        → call trigger s ≡ returned tt (record s { batch = s.batch ++ updates s.kbytes s.vbytes }))

  abbrev pub AllAdd : Triggers D K V → Type 0
  AllAdd [] = Unit
  AllAdd ((name, trigger) ∷ triggers) = Adds trigger × AllAdd triggers

  unfoldable pub all_updates :
      (triggers : Triggers D K V) → AllAdd triggers → List ℕ → List ℕ → Batch
  all_updates [] f kb vb = []
  all_updates ((name, trigger) ∷ triggers) (f, fs) kb vb =
      f.0 kb vb ++ all_updates triggers fs kb vb

  pub each_trigger-all_updates :
      (triggers : Triggers D K V) (f : AllAdd triggers) (s : Slots D)
      → each_trigger call triggers s
        ≡ returned tt (record s { batch = s.batch ++ all_updates triggers f s.kbytes s.vbytes })
  unfolding each_trigger all_updates
  each_trigger-all_updates [] f s = rw (append-nil s.batch) refl
  each_trigger-all_updates ((name, trigger) ∷ triggers) (f, fs) s = rw (f.1 s) (
      each_trigger-all_updates triggers fs _
      ∙ ap (λ batch. returned tt (record s { batch = batch })) (append_assoc s.batch _ _))

-- The triggers only add updates to the batch.
abbrev pub Follow : {D K V : Type 0} → Triggers D K V → Type 0
Follow {K = K} {V = V} triggers =
    ((k : K) (v : V) → AllAdd (λ trigger. trigger.on_put k v) triggers)
    × ((k : K) → AllAdd (λ trigger. trigger.on_del k) triggers)
