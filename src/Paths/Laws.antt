-- ===== src/Paths/Laws.antt =====
-- What is known of a runtime directory that is used, and that no other is touched.
use tapwarden.Base.{
  ap, ◌≡◌, refl, Bool, true, false, Result, ok, err, is_ok, bail_if, Text, arith, text, ◌++◌, Error,
}
use tapwarden.Base.Action.{continue_with_ok, map_result, lift}
use tapwarden.Secret.Endpoint.{context_text}
use tapwarden.Paths.{Metadata, Files, is_foreign, runtime_dir_at}

module _ {W : Type 0} (files : Files W) where
  -- The directory was created or there, is a directory of this user and not a link to one, and then
  -- got the mode 0700.
  pub record Secured (dir : Text) (w w' : W) : Type 0 where
    pub meta : Metadata
    pub checked : W
    pub created : (files.create_dir_all dir w).0 ≡ ok tt
    pub found : files.symlink_metadata dir (files.create_dir_all dir w).1 ≡ (ok meta, checked)
    pub directory : meta.is_dir ≡ true
    pub own : meta.uid ≡ files.uid
    pub closed : files.set_permissions dir 448 checked ≡ (ok tt, w')

  with_context_ok :
      {A : Type 0} (m : Text) (p : Result A × W) (a : A) (w : W)
      → ◌≡◌ {A = Result A × W} (context_text m p.0, p.1) (ok a, w)
      → p ≡ (ok a, w)
  with_context_ok m (ok b, w') a w h = h
  with_context_ok m (err e, w') a w h = cc

  passed : (b : Bool) (e : Error) (u : Unit {0}) → bail_if b e ≡ ok u → b ≡ false
  passed false e u h = refl
  passed true e u h = cc

  native_dir :
      (meta : Metadata)
      → is_foreign files meta ≡ false
      → (meta.is_dir ≡ true) × (meta.uid ≡ files.uid)
  native_dir meta h = (ground arith, ground arith)

  -- A runtime directory is given out only after it was created or found, seen to be a directory of
  -- this user and no symbolic link, and closed to everyone else (mode 0700), in this order.
  pub runtime_dir_at-Secured :
      (dir d : Text) (w w' : W)
      → runtime_dir_at files dir w ≡ (ok d, w')
      → (d ≡ dir) × Secured dir w w'
  unfolding runtime_dir_at
  runtime_dir_at-Secured dir d w w' h =
      let (u, w1, e1, h1) =
        continue_with_ok
          (map_result (context_text (text "failed to create runtime dir " ++ dir))
            (files.create_dir_all dir) w)
          _ h in
      let (meta, w2, e2, h2) =
        continue_with_ok
          (map_result (context_text (text "failed to stat runtime dir " ++ dir))
            (files.symlink_metadata dir) w1)
          _ h1 in
      let (v, w3, e3, h3) = continue_with_ok (lift _ w2) _ h2 in
      let (x, w4, e4, h4) =
        continue_with_ok
          (map_result (context_text (text "failed to chmod 0700 " ++ dir))
            (files.set_permissions dir 448) w3)
          _ h3 in
      let made = with_context_ok _ (files.create_dir_all dir w) u w1 e1 in
      let seen = with_context_ok _ (files.symlink_metadata dir w1) meta w2 e2 in
      let shut = with_context_ok _ (files.set_permissions dir 448 w3) x w4 e4 in
      let ours = native_dir meta (passed _ _ v (ap (λ p. p.0) e3)) in
      (
        cc (h4),
        record {
          meta = meta;
          checked = w2;
          created = cc (made);
          found = cc (made, seen);
          directory = ours.0;
          own = ours.1;
          closed = cc (shut, e3, h4);
        },
      )

  -- If what stands at the path, once created or found, is seen to be a link, no directory, or another
  -- user's, the call fails and its permissions are not touched: nothing is called after the look at it.
  pub runtime_dir_at_foreign :
      (dir : Text) (w w1 w2 : W) (meta : Metadata)
      → files.create_dir_all dir w ≡ (ok tt, w1)
      → files.symlink_metadata dir w1 ≡ (ok meta, w2)
      → is_foreign files meta ≡ true
      → (is_ok (runtime_dir_at files dir w).0 ≡ false) × ((runtime_dir_at files dir w).1 ≡ w2)
  unfolding runtime_dir_at
  runtime_dir_at_foreign dir w w1 w2 meta created found foreign =
      rw (created, found, foreign) (refl, refl)
