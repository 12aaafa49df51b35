-- ===== src/Broker/Listed.antt =====
-- What LIST replies with: the keys of the stored files that have the prefix.
use cmpe272_finaltest_assesm.Prelude.{
  ◌≡◌, ◌↔◌, refl, ap, sym, ◌∙◌, true, false, ◌||◌, some, List, [], ◌∷◌, ◌++◌, arith, ◌=ₜ◌,
  text_eq_refl, text_eq_iff, Bool-cases, Option-cases, inl, inr,
}
use cmpe272_finaltest_assesm.Bytes.{Bytes, Text}
use cmpe272_finaltest_assesm.Text.{codes, starts_with, ends_with}
use cmpe272_finaltest_assesm.Dict.{Dict, lookup, keys}
use cmpe272_finaltest_assesm.Receiver.State.{contains_text}
use cmpe272_finaltest_assesm.Broker.Storage.{
  Storage, dir_of, read_file, insert_sorted, sorted, list_names, list_namespaces, list_keys,
}
use cmpe272_finaltest_assesm.Broker.Every.{
  Every, nil, cons, Every-append, Every-sorted, Every-contains_text, Has, keys-Has,
}

-- A key that LIST replies with: a file that is stored under its two components, and is not a temporary
-- one.
pub record Entry (prefix : Text) (fs : Storage) (key : Text) : Type 0 where
  pub namespace : Text
  pub name : Text
  pub bs : Bytes
  pub joined : key ≡ namespace ++ b'/' ∷ name
  pub stored : read_file namespace name fs ≡ some bs
  pub has_prefix : starts_with key prefix ≡ true
  pub not_tmp : ends_with name (codes ".tmp") ≡ false

module _ (prefix : Text) (fs : Storage) where
  list_names_sound :
      (ns : Text) (names : List Text)
      → Every (Has (dir_of (lookup ns fs))) names
      → Every (Entry prefix fs) (list_names prefix ns names)
  unfolding list_names read_file
  list_names_sound ns [] nil = nil
  list_names_sound ns (name ∷ names) (cons (bs, e) hs) =
      elim (Bool-cases (ends_with name (codes ".tmp"))) [
        | inl tmp ↦ rw tmp (list_names_sound ns names hs)
        | inr file ↦ elim (Bool-cases (starts_with (ns ++ b'/' ∷ name) prefix)) [
          | inl under ↦
              rw (file, under)
                (cons
                  (record {
                    namespace = ns;
                    name = name;
                    bs = bs;
                    joined = refl;
                    stored = e;
                    has_prefix = under;
                    not_tmp = file;
                  })
                  (list_names_sound ns names hs))
          | inr other ↦ rw (file, other) (list_names_sound ns names hs)
        ]
      ]

  list_namespaces_sound : (l : List Text) → Every (Entry prefix fs) (list_namespaces prefix fs l)
  unfolding list_namespaces
  list_namespaces_sound [] = nil
  list_namespaces_sound (ns ∷ l) =
      Every-append (list_names_sound ns _ (Every-sorted _ (keys-Has (dir_of (lookup ns fs)))))
        (list_namespaces_sound l)

  -- Every key in the reply is a stored file.
  pub list_keys_sound : Every (Entry prefix fs) (list_keys prefix fs)
  unfolding list_keys
  list_keys_sound = list_namespaces_sound _

contains-append :
    (l m : List Text) (k : Text)
    → contains_text (l ++ m) k ≡ (contains_text l k || contains_text m k)
unfolding contains_text
contains-append [] m k = refl
contains-append (j ∷ l) m k = ground (arith, contains-append l m k)

contains-left :
    (l m : List Text) (k : Text) → contains_text l k ≡ true → contains_text (l ++ m) k ≡ true
contains-left l m k h = contains-append l m k ∙ ap (λ b. b || contains_text m k) h

contains-right :
    (l m : List Text) (k : Text) → contains_text m k ≡ true → contains_text (l ++ m) k ≡ true
contains-right l m k h = ground (arith, contains-append l m k, h)

contains-insert_sorted :
    (j : Text) (l : List Text) (k : Text)
    → contains_text (insert_sorted j l) k ≡ (j =ₜ k || contains_text l k)
unfolding contains_text insert_sorted
contains-insert_sorted j [] k = refl
contains-insert_sorted j (i ∷ l) k = ground (arith, contains-insert_sorted j l k)

contains-sorted : (l : List Text) (k : Text) → contains_text (sorted l) k ≡ contains_text l k
unfolding contains_text sorted
contains-sorted [] k = refl
contains-sorted (j ∷ l) k =
    ground (arith, contains-insert_sorted j (sorted l) k, contains-sorted l k)

contains-keys :
    {V : Type 0} (d : Dict V) (k : Text) (v : V)
    → lookup k d ≡ some v
    → contains_text (keys d) k ≡ true
unfolding contains_text lookup
contains-keys [] k v e = cc
contains-keys ((j, w) ∷ d) k v e = ground (arith, contains-keys d k v)

module _ (prefix : Text) (fs : Storage) (ns name : Text) where
  list_names_complete :
      (names : List Text)
      → contains_text names name ≡ true
      → starts_with (ns ++ b'/' ∷ name) prefix ≡ true
      → ends_with name (codes ".tmp") ≡ false
      → contains_text (list_names prefix ns names) (ns ++ b'/' ∷ name) ≡ true
  unfolding list_names contains_text
  list_names_complete [] h under file = cc
  list_names_complete (j ∷ names) h under file = elim (Bool-cases (j =ₜ name)) [
    | inl same ↦
        let e = (text_eq_iff j name).0 same in
        rw (e, file, under, text_eq_refl (ns ++ b'/' ∷ name)) refl
    | inr other ↦ let ih = list_names_complete names (ground arith) under file in ground (arith, ih)
  ]

  list_namespaces_complete :
      (bs : Bytes) (l : List Text)
      → contains_text l ns ≡ true
      → read_file ns name fs ≡ some bs
      → starts_with (ns ++ b'/' ∷ name) prefix ≡ true
      → ends_with name (codes ".tmp") ≡ false
      → contains_text (list_namespaces prefix fs l) (ns ++ b'/' ∷ name) ≡ true
  unfolding list_namespaces contains_text read_file
  list_namespaces_complete bs [] h e under file = cc
  list_namespaces_complete bs (m ∷ l) h e under file = elim (Bool-cases (m =ₜ ns)) [
    | inl same ↦
        let here : contains_text (list_names prefix ns (sorted (keys (dir_of (lookup ns fs)))))
              (ns ++ b'/' ∷ name)
            ≡ true =
          list_names_complete (sorted (keys (dir_of (lookup ns fs))))
            (contains-sorted (keys (dir_of (lookup ns fs))) name
              ∙ contains-keys (dir_of (lookup ns fs)) name bs e)
            under file in
        rw ((text_eq_iff m ns).0 same) (
          contains-left (list_names prefix ns (sorted (keys (dir_of (lookup ns fs)))))
            (list_namespaces prefix fs l) (ns ++ b'/' ∷ name) here)
    | inr other ↦
        let ih = list_namespaces_complete bs l (ground arith) e under file in
        contains-right (list_names prefix m (sorted (keys (dir_of (lookup m fs))))) _ _ ih
  ]

  dir_there : (bs : Bytes) → read_file ns name fs ≡ some bs → contains_text (keys fs) ns ≡ true
  unfolding read_file lookup
  dir_there bs e = elim (Option-cases (lookup ns fs)) [
    | inl gone ↦ cc (e, gone)
    | inr (d, there) ↦ contains-keys fs ns d there
  ]

  list_keys_complete :
      (bs : Bytes)
      → read_file ns name fs ≡ some bs
      → starts_with (ns ++ b'/' ∷ name) prefix ≡ true
      → ends_with name (codes ".tmp") ≡ false
      → contains_text (list_keys prefix fs) (ns ++ b'/' ∷ name) ≡ true
  unfolding list_keys
  list_keys_complete bs e under file =
      list_namespaces_complete bs (sorted (keys fs)) (contains-sorted (keys fs) ns ∙ dir_there bs e)
        e under file

-- LIST replies with a key exactly if a file is stored under its components, it has the prefix, and the
-- file is not a temporary one.
pub list_keys_lem :
    (prefix : Text) (fs : Storage) (key : Text)
    → (contains_text (list_keys prefix fs) key ≡ true) ↔ Entry prefix fs key
list_keys_lem prefix fs key = (
  Every-contains_text (list_keys prefix fs) key (list_keys_sound prefix fs),
  λ e.
      ap (contains_text (list_keys prefix fs)) e.joined
      ∙ list_keys_complete prefix fs e.namespace e.name e.bs e.stored
          (ap (λ k. starts_with k prefix) (sym e.joined) ∙ e.has_prefix) e.not_tmp,
)
