-- ===== src/Backends/Pwa/Watched.antt =====
-- Watched accounts: watchAccount, and what stays of what was kept.
use widespread_logos.Prelude.{
  Bool, true, false, Text, codes, text_eq_refl, Result, ok, err, if◌then◌else◌, ◌≡◌, refl, sym, ap,
  ◌∙◌, inl, inr, Bool-cases, arith,
}
use mathlib.Core.Path.{subst}
use widespread_logos.Prelude.Tasks.{done, fail, resume, ◌>>=◌}
use widespread_logos.Platform.Json.{
  Value, Values, nil, item, undefined, null, bool, num, str, arr, obj, get?, find, or_else,
}
use widespread_logos.Backends.Pwa.Blob.{Idb, account_value, push}
use widespread_logos.Backends.Pwa.Surface.{
  idb_get, idb_set, kept_accounts, watch_in, watch_account, some_account, is_text,
}
use widespread_logos.Backends.Pwa.Kept.{Laws}

nil-absent : {A : Type 0} (id : Text) → some_account id nil ≡ true → A
unfolding some_account
nil-absent id there = cc

-- The account that was pushed is there.
some_account-push :
    (label id : Text) (vs : Values) → some_account id (push (account_value label id) vs) ≡ true
unfolding some_account push account_value get? find is_text
some_account-push label id nil = rw (text_eq_refl id)
some_account-push label id (item v vs) = ground (arith, some_account-push label id vs)

-- An account that is there stays there when another one is pushed.
some_account-pushed :
    (id : Text) (v : Value) (vs : Values)
    → some_account id vs ≡ true
    → some_account id (push v vs) ≡ true
unfolding some_account push
some_account-pushed id v nil there = cc
some_account-pushed id v (item u vs) there = ground (arith, some_account-pushed id v vs)

module _ {Host : Type 0} (idb : Idb Host) where
  -- The account is among those that are kept.
  abbrev pub Watched : Text → Host → Type 0
  Watched id h =
      (vs : Values) × (idb.get_item (codes "accounts") h ≡ ok (arr vs))
      × (some_account id vs ≡ true)

  -- The blob and the viewing keys read as before.
  abbrev pub Stays : Host → Host → Type 0
  Stays h after =
      (idb.get_item (codes "blob") after ≡ idb.get_item (codes "blob") h)
      × (idb.get_item (codes "viewkeys") after ≡ idb.get_item (codes "viewkeys") h)

module _ {Host : Type 0} (idb : Idb Host) (laws : Laws idb) where
  array-Watched :
      (label id : Text) (vs : Values) (h : Host) {after : Host}
      → (some_account id vs ≡ true → idb.get_item (codes "accounts") h ≡ ok (arr vs))
      → watch_in idb label id (arr vs) h ≡ (ok tt, after)
      → Watched idb id after
  unfolding watch_in idb_set done
  array-Watched label id vs h {after} same returned = elim (Bool-cases (some_account id vs)) [
    | inl there ↦ (
      vs,
      subst (λ g. idb.get_item (codes "accounts") g ≡ ok (arr vs)) (kept there) (same there),
      there,
    )
    | inr absent ↦ (_, laws.get-put _ _ (put absent), some_account-push label id vs)
  ]
    where
      branch : Bool → Result (Unit {0}) × Host
      branch b =
          (if b
              then done tt
              else idb_set idb (codes "accounts") (arr (push (account_value label id) vs)))
            h

      kept : some_account id vs ≡ true → h ≡ after
      kept there = ap (λ (o : Result (Unit {0}) × Host). o.1) (sym (ap branch there) ∙ returned)

      put :
          some_account id vs ≡ false
          → idb.set_item (codes "accounts") (arr (push (account_value label id) vs)) h
            ≡ (ok tt, after)
      put absent = sym (ap branch absent) ∙ returned

  value-Watched :
      (label id : Text) (found : Value) (h : Host) {after : Host}
      → idb.get_item (codes "accounts") h ≡ ok found
      → watch_in idb label id (or_else found (arr nil)) h ≡ (ok tt, after)
      → Watched idb id after
  unfolding or_else watch_in fail
  value-Watched label id undefined h got returned =
      array-Watched label id nil h (λ e. nil-absent id e) returned
  value-Watched label id null h got returned =
      array-Watched label id nil h (λ e. nil-absent id e) returned
  value-Watched label id (arr vs) h got returned = array-Watched label id vs h (λ e. got) returned
  value-Watched label id (bool _) h got returned = cc
  value-Watched label id (num _) h got returned = cc
  value-Watched label id (str _) h got returned = cc
  value-Watched label id (obj _) h got returned = cc

  account-Watched :
      (label id : Text) (h : Host) {after : Host}
      → watch_account idb label id h ≡ (ok tt, after)
      → Watched idb id after
  unfolding watch_account kept_accounts idb_get ◌>>=◌ done
  account-Watched label id h {after} returned =
      from (idb.get_item (codes "accounts") h) refl returned
    where
      from :
          (r : Result Value)
          → idb.get_item (codes "accounts") h ≡ r
          → resume (resume (r, h) (λ found. done (or_else found (arr nil)))) (watch_in idb label id)
            ≡ (ok tt, after)
          → Watched idb id after
      from (err e) got returned = cc
      from (ok found) got returned = value-Watched label id found h got returned

  -- Watching an account a second time, under whatever label, changes nothing.
  pub watch_account-twice :
      (label other id : Text) (h : Host) {after : Host}
      → watch_account idb label id h ≡ (ok tt, after)
      → watch_account idb other id after ≡ (ok tt, after)
  unfolding watch_account kept_accounts idb_get ◌>>=◌ done watch_in or_else
  watch_account-twice label other id h returned =
      let (vs, kept, there) = account-Watched label id h returned in rw (kept, there)

  put-Stays : (v : Value) (h : Host) → Stays idb h (idb.set_item (codes "accounts") v h).1
  put-Stays v h = from (idb.set_item (codes "accounts") v h) refl
    where
      from :
          (o : Result (Unit {0}) × Host) → idb.set_item (codes "accounts") v h ≡ o → Stays idb h o.1
      from (ok tt, after) put = (laws.get-other _ _ _ put refl, laws.get-other _ _ _ put refl)
      from (err e, after) put = (laws.get-failed _ _ put _, laws.get-failed _ _ put _)

  array-Stays :
      (label id : Text) (vs : Values) (h : Host) → Stays idb h (watch_in idb label id (arr vs) h).1
  unfolding watch_in idb_set done
  array-Stays label id vs h = elim (Bool-cases (some_account id vs)) [
    | inl there ↦ rw there (refl, refl)
    | inr absent ↦ rw absent (put-Stays _ h)
  ]

  -- watchAccount leaves the blob and the viewing keys alone, whether it returns or is rejected.
  pub watch_account-Stays :
      (label id : Text) (h : Host) → Stays idb h (watch_account idb label id h).1
  unfolding watch_account kept_accounts idb_get ◌>>=◌ done or_else fail watch_in
  watch_account-Stays label id h = from (idb.get_item (codes "accounts") h)
    where
      from :
          (r : Result Value)
          → Stays idb h
              (resume
                (resume (r, h) (λ found. done (or_else found (arr nil))))
                (watch_in idb label id)).1
      from (err e) = (refl, refl)
      from (ok undefined) = array-Stays label id nil h
      from (ok null) = array-Stays label id nil h
      from (ok (arr vs)) = array-Stays label id vs h
      from (ok (bool _)) = (refl, refl)
      from (ok (num _)) = (refl, refl)
      from (ok (str _)) = (refl, refl)
      from (ok (obj _)) = (refl, refl)

  put-Watched :
      (label id other : Text) (vs : Values) (h : Host)
      → idb.get_item (codes "accounts") h ≡ ok (arr vs)
      → some_account id vs ≡ true
      → Watched idb id
          (idb.set_item (codes "accounts") (arr (push (account_value label other) vs)) h).1
  put-Watched label id other vs h kept there =
      from (idb.set_item (codes "accounts") (arr (push (account_value label other) vs)) h) refl
    where
      from :
          (o : Result (Unit {0}) × Host)
          → idb.set_item (codes "accounts") (arr (push (account_value label other) vs)) h ≡ o
          → Watched idb id o.1
      from (ok tt, after) put =
          (_, laws.get-put _ _ put, some_account-pushed id (account_value label other) vs there)
      from (err e, after) put = (vs, laws.get-failed _ _ put _ ∙ kept, there)

  -- An account that is watched is still watched after another call of watchAccount.
  pub watch_account-Watched :
      (label id other : Text) (h : Host)
      → Watched idb id h
      → Watched idb id (watch_account idb label other h).1
  unfolding watch_account kept_accounts idb_get ◌>>=◌ done or_else watch_in idb_set
  watch_account-Watched label id other h (vs, kept, there) =
      elim (Bool-cases (some_account other vs)) [
        | inl known ↦ rw (kept, known) (vs, kept, there)
        | inr new ↦ rw (kept, new) (put-Watched label id other vs h kept there)
      ]
