-- ===== src/Ldb/Tests.antt =====
-- The theorems of the iterators on an iterator that is the list of the keys left.
use libglim.Base.{
  ℕ, ◌≡◌, refl, ap, ◌++◌, Option, none, Bool, true, false, not, some, List, [], ◌∷◌, arith, ltb,
}
use libglim.Itoa.{codes}
use libglim.Ldb.{range, below, LevelIterator, starts_begin, serialize_uint32, deserialize_uint32}
use libglim.Ldb.Keys.{serialize_uint32-ordered}
use libglim.Ldb.Store.{
  Status, fine, not_found, put_update, Batch, Level, returned, Trigger, Triggers, gstring_serial,
  uint32_serial,
}
use libglim.Ldb.Updates.{applied, applied-append, Promises, Follow}
use libglim.Ldb.Batches.{
  Operation, putting, deleting, Agree, operate_each, operate_at_once, operate_at_once-Agree,
}
use libglim.Ldb.Ranges.{visit_range, between, visit_range-between}
use libglim.Ldb.Prefix.{Snapshot, is_nil, Sorted, keys_from, prefixed, visit, visit-starts_begin}

serialize_uint32-ordered_example :
    (deserialize_uint32 (serialize_uint32 255) ≡ some 255)
    × (below (serialize_uint32 255) (serialize_uint32 256) ≡ ltb 255 256)
serialize_uint32-ordered_example = serialize_uint32-ordered 255 256 (omega arith) (omega arith)

abbrev keys : List (List ℕ)
keys = codes "a" ∷ codes "ba" ∷ codes "bb" ∷ codes "c" ∷ []

abbrev has_key : List (List ℕ) → Bool
has_key [] = false
has_key (k ∷ ks) = true

abbrev first_key : List (List ℕ) → List ℕ
first_key [] = []
first_key (k ∷ ks) = k

abbrev tail_of : List (List ℕ) → List (List ℕ)
tail_of [] = []
tail_of (k ∷ ks) = ks

abbrev on_list : LevelIterator (List (List ℕ))
on_list = record {
  is_valid = has_key;
  key = first_key;
  next_entry = tail_of;
  prev_entry = λ c. c;
  seek_key = λ p c. keys_from p keys;
  seek_to_first = λ c. keys;
  seek_to_last = λ c. codes "c" ∷ [];
}

has_key_lem : (c : List (List ℕ)) → has_key c ≡ not (is_nil c)
has_key_lem [] = refl
has_key_lem (k ∷ ks) = refl

abbrev of_list : Snapshot on_list keys
of_list = record {
  rest = λ c. c;
  valid_law = has_key_lem;
  key_law = λ c k ks e. ap first_key e;
  next_law = λ c k ks e. ap tail_of e;
  seek_law = λ p c. refl;
}

keys-Sorted : Sorted keys
unfolding below
keys-Sorted = ((refl, (refl, (refl, tt))), ((refl, (refl, tt)), ((refl, tt), (tt, tt))))

visit-starts_begin_example :
    visit on_list 4 (codes "b") (starts_begin on_list (codes "b") []) ≡ prefixed (codes "b") keys
visit-starts_begin_example =
    visit-starts_begin on_list keys of_list 4 (codes "b") [] keys-Sorted (omega arith)

visit_range-between_example :
    visit_range on_list 5
      (range on_list (codes "b") (codes "bb") [] []).0
      (range on_list (codes "b") (codes "bb") [] []).1
    ≡ some (between (codes "b") (codes "bb") keys)
visit_range-between_example =
    visit_range-between on_list keys of_list 5 (codes "b") (codes "bb") [] [] keys-Sorted
      (unfold below in refl) (omega arith)

-- leveldb as the log of the updates it was given.
abbrev status_of : Option (List ℕ) → Status × List ℕ
status_of none = (not_found, [])
status_of (some v) = (fine, v)

abbrev nothing : List ℕ → Option (List ℕ)
nothing k = none

abbrev log_level : Level Batch
log_level = record {
  write = λ batch db. (fine, db ++ batch);
  get = λ k db. status_of (applied db nothing k);
}

log_level-get :
    (o : Option (List ℕ)) (v : List ℕ)
    → (status_of o ≡ (fine, v) → o ≡ some v) × (status_of o ≡ (not_found, v) → o ≡ none)
log_level-get none v = (λ e. cc, λ e. refl)
log_level-get (some w) v = (λ e. cc, λ e. cc)

abbrev log_promises : Promises log_level
log_promises = record {
  contents = λ db. applied db nothing;
  write_law = λ batch db e. applied-append db batch nothing;
  get_law = λ k v db e. (log_level-get (applied db nothing k) v).0 e;
  missing_law = λ k v db e. (log_level-get (applied db nothing k) v).1 e;
}

-- A trigger that keeps the keys by their values.
abbrev by_value : Trigger Batch ℕ (List ℕ)
by_value = record {
  trigger_name = codes "index";
  on_put = λ k v s. returned tt (record s { batch = s.batch ++ put_update s.vbytes s.kbytes ∷ [] });
  on_del = λ k s. returned tt (record s { batch = s.batch ++ [] });
}

abbrev triggers : Triggers Batch ℕ (List ℕ)
triggers = (codes "index", by_value) ∷ []

follow : Follow triggers
follow = (
  λ k v. (((λ kb vb. put_update vb kb ∷ []), λ s. refl), tt),
  λ k. (((λ kb vb. []), λ s. refl), tt),
)

abbrev operations : List (Operation ℕ (List ℕ))
operations = putting 7 (codes "a") ∷ putting 8 (codes "b") ∷ deleting 7 ∷ []

operate_at_once-agrees_example :
    Agree
      (log_promises.contents)
      []
      (operate_each log_level uint32_serial gstring_serial triggers operations [])
      (operate_at_once log_level uint32_serial gstring_serial triggers operations [])
operate_at_once-agrees_example =
    operate_at_once-Agree log_level uint32_serial gstring_serial triggers follow log_promises
      (λ batch db. refl) operations []
