-- ===== src/Broker/Blobs.antt =====
-- The blobs of the broker by their keys: what a PUT changes, and what a GET replies.
use cmpe272_finaltest_assesm.Prelude.{
  ◌≡◌, refl, ap, sym, ◌∙◌, true, false, ◌&&◌, Option, none, some, [], ◌∷◌, ◌++◌, append_assoc,
  arith, ◌=ₜ◌, text_eq_iff, length, length-append, ◌⊎◌, inl, inr, Bool-cases, if◌then◌else◌,
}
use cmpe272_finaltest_assesm.Result.{Error, Result, Result-cases, ok, err}
use cmpe272_finaltest_assesm.Bytes.{Bytes, Text}
use cmpe272_finaltest_assesm.Text.{codes}
use cmpe272_finaltest_assesm.Dict.{lookup, insert, erase, lookup-insert, lookup-erase}
use cmpe272_finaltest_assesm.Broker.Key.{safe_path}
use cmpe272_finaltest_assesm.Broker.Storage.{
  Storage, dir_of, read_file, write_file, remove_file, tmp_name, store_blob,
}
use cmpe272_finaltest_assesm.Broker.Command.{find_blob}
use cmpe272_finaltest_assesm.Broker.Confined.{
  avoids, namespace_avoids, IsConfined, safe_path-IsConfined,
}

module _ (ns name : Text) (ns' name' : Text) (fs : Storage) where
  read_file-write_file :
      (bs : Bytes)
      → read_file ns' name' (write_file ns name bs fs)
        ≡ (if ns =ₜ ns' && name =ₜ name' then some bs else read_file ns' name' fs)
  unfolding read_file write_file
  read_file-write_file bs = ground (
    arith,
    text_eq_iff ns ns',
    lookup-insert ns ns' (insert name bs (dir_of (lookup ns fs))) fs,
    lookup-insert name name' bs (dir_of (lookup ns fs)),
  )

  read_file-remove_file :
      read_file ns' name' (remove_file ns name fs)
      ≡ (if ns =ₜ ns' && name =ₜ name' then none else read_file ns' name' fs)
  unfolding read_file remove_file
  read_file-remove_file = ground (
    arith,
    text_eq_iff ns ns',
    lookup-insert ns ns' (erase name (dir_of (lookup ns fs))) fs,
    lookup-erase name name' (dir_of (lookup ns fs)),
  )

tmp_name-ne : (name : Text) → (tmp_name name =ₜ name) ≡ false
tmp_name-ne name = elim (Bool-cases (tmp_name name =ₜ name)) [
  | inl same ↦
      let e = ap length ((text_eq_iff (tmp_name name) name).0 same) in
      absurd (omega (arith, e, length-append {0} name (codes ".tmp")))
  | inr other ↦ other
]

-- Every file of the storage after a PUT to a path.
pub store_blob_lem :
    (ns name : Text) (bs : Bytes) (fs : Storage) (ns' name' : Text)
    → (name =ₜ codes ".") ≡ false
    → ((store_blob ns name bs fs).0 ≡ ok tt)
      × (read_file ns' name' (store_blob ns name bs fs).1 ≡ (
          if ns =ₜ ns' && name =ₜ name'
          then some bs
          else if ns =ₜ ns' && tmp_name name =ₜ name'
          then none
          else read_file ns' name' fs))
unfolding store_blob
store_blob_lem ns name bs fs ns' name' h =
    let tmp = tmp_name name in
    let written = write_file ns tmp bs fs in
    let removed = remove_file ns tmp written in
    ground (
      arith,
      h,
      read_file-write_file ns name ns' name' removed bs,
      read_file-remove_file ns tmp ns' name' written,
      read_file-write_file ns tmp ns' name' fs bs,
    )

-- Two keys are the same exactly if their components are.
pub key_eq :
    (ns ns' a b : Text)
    → avoids b'/' ns ≡ true
    → avoids b'/' ns' ≡ true
    → ((ns ++ b'/' ∷ a) =ₜ (ns' ++ b'/' ∷ b)) ≡ (ns =ₜ ns' && a =ₜ b)
unfolding avoids
key_eq [] [] a b h h' = refl
key_eq [] (d ∷ ns') a b h h' = ground arith
key_eq (c ∷ ns) [] a b h h' = ground arith
key_eq (c ∷ ns) (d ∷ ns') a b h h' = ground (arith, key_eq ns ns' a b)

abbrev pub tmp_key : Text → Text
tmp_key key = key ++ codes ".tmp"

-- The blob that is stored under a key, legal or not.
abbrev pub blob : Text → Storage → Option Bytes
blob key fs = find_blob (safe_path key) fs

-- The storage after a PUT to the key `key`, as every key `other` sees it.
abbrev pub Stores : Text → Bytes → Storage → Storage → Type 0
Stores key bs fs fs' =
    (other : Text)
    → blob other fs'
      ≡ (if key =ₜ other then some bs else if tmp_key key =ₜ other then none else blob other fs)

module _ (key ns name : Text) (legal : safe_path key ≡ ok (ns, name)) where
  own_path : IsConfined key ns name
  own_path = safe_path-IsConfined key ns name legal

  -- A key that is refused is another key.
  refused_other : (other : Text) (e : Error) → safe_path other ≡ err e → (key =ₜ other) ≡ false
  refused_other other e bad = elim (Bool-cases (key =ₜ other)) [
    | inl same ↦
        let eq = (text_eq_iff key other).0 same in
        absurd (ok_not_err (sym legal ∙ ap safe_path eq ∙ bad))
    | inr ne ↦ ne
  ]
    where
      ok_not_err : ◌≡◌ {A = Result (Text × Text)} (ok (ns, name)) (err e) → ⊥
      ok_not_err h = cc

  keys_eq :
      (other ns' name' : Text)
      → safe_path other ≡ ok (ns', name')
      → ((key =ₜ other) ≡ (ns =ₜ ns' && name =ₜ name'))
        × ((tmp_key key =ₜ other) ≡ (ns =ₜ ns' && tmp_name name =ₜ name'))
  keys_eq other ns' name' legal' =
      let own = own_path in
      let c = safe_path-IsConfined other ns' name' legal' in
      let flat = namespace_avoids ns own.namespace_chars in
      let flat' = namespace_avoids ns' c.namespace_chars in
      (
        rw (own.joined, c.joined) (key_eq ns ns' name name' flat flat'),
        rw (own.joined, c.joined, append_assoc ns (b'/' ∷ name) (codes ".tmp"))
            (key_eq ns ns' (tmp_name name) name' flat flat'),
      )

  -- After a PUT the key has the new blob; the key with `.tmp` behind it, if it is legal, has none;
  -- every other key has what it had.
  pub store_blob-Stores :
      (bs : Bytes) (fs : Storage)
      → (name =ₜ codes ".") ≡ false
      → ((store_blob ns name bs fs).0 ≡ ok tt) × Stores key bs fs (store_blob ns name bs fs).1
  store_blob-Stores bs fs h = (
    (store_blob_lem ns name bs fs ns name h).0,
    λ other. at other (Result-cases (safe_path other)),
  )
    where
      at :
          (other : Text)
          → (((p : Text × Text) × (safe_path other ≡ ok p))
              ⊎ ((e : Error) × (safe_path other ≡ err e)))
          → blob other (store_blob ns name bs fs).1 ≡ (
              if key =ₜ other
              then some bs
              else if tmp_key key =ₜ other
              then none
              else blob other fs)
      at other (inl ((ns', name'), legal')) =
          let eqs = keys_eq other ns' name' legal' in
          unfold find_blob in
          rw (legal', eqs.0, eqs.1) ((store_blob_lem ns name bs fs ns' name' h).1)
      at other (inr (e, bad)) =
          let ne = refused_other other e bad in unfold find_blob in rw (bad, ne) (ground arith)
