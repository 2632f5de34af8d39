-- ===== src/Atproto/Mst/Backing.antt =====
-- A change that a commit is read as is backed by the tree and the blocks of its archive.
use dais.Base.{
  ℕ, Text, Bytes, bytes, Option, none, some, false, ok, ◌≡◌, refl, sym, ◌∙◌, arith, text_eq,
  text_eq_iff, Bool-cases, Result-cases, inl, inr, if◌then◌else◌, >>=-eq-ok, ok-injective, ok_or,
  CoreError, err, ap, ◌⊎◌,
}
use mathlib.Core.Path.{subst}
use dais.Base.Run
use dais.Base.Run.{Run, done, return, done-injective, >>=-eq-return}
use dais.Formats.{Formats, IsLawful}
use dais.Atproto.Car.{CarFile, block}
use dais.Atproto.Sync.{RepoOperation}
use dais.Atproto.Mst.{mst_get}
use dais.Atproto.Mst.Changes.{
  RepoChange, created, updated, deleted, check_declared, change_of, extract_one_change,
}

ok_or-eq-ok : {A : Type 0} (e : CoreError) (o : Option A) (a : A) → ok_or e o ≡ ok a → o ≡ some a
ok_or-eq-ok e none a h = cc
ok_or-eq-ok e (some b) a h = ap some (ok-injective h)

module _ {C F N : Type 0} (x : Formats C F N) (laws : IsLawful x) (car : CarFile C)
    (op : RepoOperation) where
  -- The CID that the operation declares, if any, is the one given.
  abbrev pub Declares : C → Type 0
  Declares cid = (declared : Text) → op.cid ≡ some declared → x.parse_cid declared ≡ ok cid

  -- The block of a CID, and a record of it in the operation.
  abbrev pub Holding : Option C → C → Bytes → Type 0
  Holding looked_up cid b = (looked_up ≡ some cid) × (block x car cid ≡ some b) × Declares cid

  check_declared_sound :
      (declared : Text) (found : C)
      → check_declared x op (some declared) found ≡ ok tt
      → x.parse_cid declared ≡ ok found
  unfolding check_declared
  check_declared_sound declared found h = elim (Result-cases (x.parse_cid declared)) [
    | inl (c, e) ↦ ground (arith, e, laws.cid_eq_iff c found)
    | inr (message, e) ↦ ground (arith, e)
  ]

  change_of_sound :
      (looked_up : Option C) (change : RepoChange C)
      → change_of x car op looked_up ≡ ok change
      → (cid : C) × (b : Bytes) × Holding looked_up cid b
        × (change ≡ (
            if text_eq op.action (bytes "create")
            then created op.path cid b
            else updated op.path cid b))
  unfolding change_of
  change_of_sound none change h = cc
  change_of_sound (some cid) change h =
      let (u, e, e') = >>=-eq-ok (check_declared x op op.cid cid) _ h in
      let (b, k, k') = >>=-eq-ok (ok_or _ (block x car cid)) _ e' in
      let declares : Declares cid = λ declared d.
        check_declared_sound declared cid (subst (λ o. check_declared x op o cid ≡ ok tt) d e) in
      (cid, b, (refl, ok_or-eq-ok _ (block x car cid) b k, declares), sym (ok-injective k'))

  refused :
      {A : Type 0} {message : CoreError} {change : RepoChange C}
      → ◌≡◌ {A = Run (RepoChange C)} (done (err message)) (return change)
      → A
  refused h = cc

  -- What a change says of the tree at `data_root` and of the archive.
  abbrev pub IsBacked : ℕ → C → RepoChange C → Type 0
  IsBacked fuel data_root (created p cid b) =
      (op.action ≡ bytes "create")
      × (p ≡ op.path)
      × (mst_get x fuel car data_root op.path ≡ return (some cid))
      × (block x car cid ≡ some b)
      × Declares cid
  IsBacked fuel data_root (updated p cid b) =
      (op.action ≡ bytes "update")
      × (p ≡ op.path)
      × (mst_get x fuel car data_root op.path ≡ return (some cid))
      × (block x car cid ≡ some b)
      × Declares cid
  IsBacked fuel data_root (deleted p) = (op.action ≡ bytes "delete") × (p ≡ op.path)

  looked :
      (fuel : ℕ) (data_root : C) (change : RepoChange C)
      → Run.◌>>=◌ (mst_get x fuel car data_root op.path) (λ found. done (change_of x car op found))
        ≡ return change
      → (op.action ≡ bytes "create")
        ⊎ ((text_eq op.action (bytes "create") ≡ false) × (op.action ≡ bytes "update"))
      → IsBacked fuel data_root change
  looked fuel data_root change h action =
      let (found, e, e') = >>=-eq-return (mst_get x fuel car data_root op.path) _ h in
      let (cid, b, (f, held, declares), same) =
        change_of_sound found change (done-injective _ _ e') in
      let got = e ∙ ap (λ o. return o) f in
      elim action [
        | inl create ↦
            let branch : change ≡ created op.path cid b =
              same ∙ (rw ((text_eq_iff op.action (bytes "create")).1 create)) in
            subst (IsBacked fuel data_root) (sym branch) (create, refl, got, held, declares)
        | inr (other, update) ↦
            let branch : change ≡ updated op.path cid b = same ∙ (rw other) in
            subst (IsBacked fuel data_root) (sym branch) (update, refl, got, held, declares)
      ]

  -- A change is read off an operation only as it stands in the archive: a path that is created or
  -- updated is in the tree, under the CID that the operation declares if it declares one, and the
  -- bytes are those of the block of that CID; a deletion is of the operation's path.
  pub extract_one_change-IsBacked :
      (fuel : ℕ) (data_root : C) (change : RepoChange C)
      → extract_one_change x fuel car data_root op ≡ return change
      → IsBacked fuel data_root change
  unfolding extract_one_change
  extract_one_change-IsBacked fuel data_root change h =
      elim (Bool-cases (text_eq op.action (bytes "delete"))) [
        | inl delete ↦
            let same : deleted op.path ≡ change =
              ok-injective (done-injective _ _ (rw delete at h)) in
            subst (IsBacked fuel data_root) same
              ((text_eq_iff op.action (bytes "delete")).0 delete, refl)
        | inr kept ↦ elim (Bool-cases (text_eq op.action (bytes "create"))) [
          | inl create ↦
              looked fuel data_root change (rw (kept, create) at h)
                (inl ((text_eq_iff op.action (bytes "create")).0 create))
          | inr other ↦ elim (Bool-cases (text_eq op.action (bytes "update"))) [
            | inl update ↦
                looked fuel data_root change (rw (kept, other, update) at h)
                  (inr (other, (text_eq_iff op.action (bytes "update")).0 update))
            | inr neither ↦ refused (rw (kept, other, neither) at h)
          ]
        ]
      ]
