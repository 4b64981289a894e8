-- ===== src/Setup/Files/Mode.antt =====
-- That the configuration file is private when it has been written.
use tapwarden.Base.{◌≡◌, Text, utf8, Result, ok, err, context, String}
use tapwarden.Base.Action.{continue_with_ok, map_result}
use tapwarden.Paths.{reject_symlink}
use tapwarden.Setup.Files.{FileHost, create_parent, write_config_file}

module _ {Handle W : Type 0} (host : FileHost Handle W) where
  -- The file was opened with the mode 0600 for the case that it is new, all of the contents was written
  -- to it, and then, as the last call, it was closed to everyone else.
  pub record Private (path contents : Text) (w' : W) : Type 0 where
    pub file : Handle
    pub before : W
    pub opened : W
    pub written : W
    pub created : host.open_truncated path 384 before ≡ (ok file, opened)
    pub filled : host.write_all file (utf8 contents) opened ≡ (ok tt, written)
    pub tightened : host.files.set_permissions path 384 written ≡ (ok tt, w')

  without_context :
      {A : Type 0} (s : String) (p : Result A × W) (a : A) (w : W)
      → ◌≡◌ {A = Result A × W} (context s p.0, p.1) (ok a, w)
      → p ≡ (ok a, w)
  without_context s (ok b, w') a w h = h
  without_context s (err e, w') a w h = cc

  -- A configuration file that has been written has the mode 0600, whether it is new or was there with
  -- another mode, and holds the contents.
  pub write_config_file-Private :
      (path contents : Text) (w w' : W)
      → write_config_file host path contents w ≡ (ok tt, w')
      → Private path contents w'
  unfolding write_config_file
  write_config_file-Private path contents w w' h =
      let (u1, w1, e1, h1) = continue_with_ok (reject_symlink host.files path w) _ h in
      let (u2, w2, e2, h2) =
        continue_with_ok (create_parent host (host.files.parent path) w1) _ h1 in
      let (file, w3, e3, h3) =
        continue_with_ok
          (map_result (context "failed to open the config file for writing")
            (host.open_truncated path 384) w2)
          _ h2 in
      let (u4, w4, e4, h4) =
        continue_with_ok
          (map_result (context "failed to write the config file")
            (host.write_all file (utf8 contents)) w3)
          _ h3 in
      record {
        file = file;
        before = w2;
        opened = w3;
        written = w4;
        created = without_context _ (host.open_truncated path 384 w2) file w3 e3;
        filled = without_context _ (host.write_all file (utf8 contents) w3) tt w4 e4;
        tightened = without_context _ (host.files.set_permissions path 384 w4) tt w' h4;
      }
