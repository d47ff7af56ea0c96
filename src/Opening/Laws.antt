-- ===== src/Opening/Laws.antt =====
-- The registry after it has been opened.
use saas_ntier_lab.Prelude.{
  String, ◌≡◌, refl, Bool, true, false, Option, none, some, List, [], ◌∷◌, lookup, ◌≢◌,
  if◌then◌else◌,
}
use saas_ntier_lab.Errors.{Result, ok, err, Error}
use saas_ntier_lab.Ids.Grammar.{IsTenantId}
use saas_ntier_lab.Store
use saas_ntier_lab.Store.{Table}
use saas_ntier_lab.Store.Legacy.{Meta}
use saas_ntier_lab.Store.Legacy.Laws.{import-IsRegistry}
use saas_ntier_lab.Store.Legacy.Columns.{ReadsAs, import-ReadsAs}
use saas_ntier_lab.Exec.{Platform, World, continue, is_file, read_text}
use saas_ntier_lab.Exec.Keeps.{Keeps, Registered, registered_rules}
use saas_ntier_lab.Opening.{
  no_rows, legacy_path, is_empty, insert_all, import_decoded, import_if_empty, import_if_there,
  open_store,
}

module _ (p : Platform) (data_dir : String) (entries : String → Option (List (String × Meta))) where
  empty-Registered : Keeps (Registered p) (is_empty p data_dir entries)
  unfolding is_empty
  empty-Registered = record { at = λ w h. h }

  decoded-Registered :
      (o : Option (List (String × Meta)))
      → Keeps (Registered p) (import_decoded p data_dir entries o)
  unfolding import_decoded insert_all
  decoded-Registered none = search registered_rules
  decoded-Registered (some es) = record { at = λ w h. import-IsRegistry _ es w.table h }

  if_empty-Registered : (b : Bool) → Keeps (Registered p) (import_if_empty p data_dir entries b)
  unfolding import_if_empty
  if_empty-Registered true = search (registered_rules, decoded-Registered)
  if_empty-Registered false = search registered_rules

  if_there-Registered : (b : Bool) → Keeps (Registered p) (import_if_there p data_dir entries b)
  unfolding import_if_there
  if_there-Registered true = search (registered_rules, empty-Registered, if_empty-Registered)
  if_there-Registered false = search registered_rules

  pub open_store-Registered : Keeps (Registered p) (open_store p data_dir entries)
  unfolding open_store
  open_store-Registered = search (registered_rules, if_there-Registered)

  -- How opening the registry from `w` ends, with the result and the table that it leaves: `x` is the
  -- state after the question whether the older registry's file is there, and `y` after it is read.
  pub data Opened (w : World p) (x y : p.Ext) (r : Result (Unit {0})) (after : Table) : Type 0 where
    absent :
        (p.file_exists (legacy_path p data_dir entries) w.ext).0 ≡ false
        → r ≡ ok tt
        → after ≡ w.table
        → Opened w x y r after
    has_rows :
        (p.file_exists (legacy_path p data_dir entries) w.ext).0 ≡ true
        → w.table ≢ []
        → r ≡ ok tt
        → after ≡ w.table
        → Opened w x y r after
    unread :
        (e : Error)
        → (p.file_exists (legacy_path p data_dir entries) w.ext).0 ≡ true
        → w.table ≡ []
        → (p.read_file (legacy_path p data_dir entries) x).0 ≡ err e
        → r ≡ err e
        → after ≡ []
        → Opened w x y r after
    not_json :
        (text : String)
        → (p.file_exists (legacy_path p data_dir entries) w.ext).0 ≡ true
        → w.table ≡ []
        → (p.read_file (legacy_path p data_dir entries) x).0 ≡ ok text
        → entries text ≡ none
        → r ≡ ok tt
        → after ≡ []
        → Opened w x y r after
    imported :
        (text : String) (found : List (String × Meta))
        → (p.file_exists (legacy_path p data_dir entries) w.ext).0 ≡ true
        → w.table ≡ []
        → (p.read_file (legacy_path p data_dir entries) x).0 ≡ ok text
        → entries text ≡ some found
        → r ≡ ok tt
        → ((k : String)
            → IsTenantId k
            → ReadsAs (p.utcnow y).0 k (lookup k found) (Store.get after k))
        → Opened w x y r after

  -- The same, with the states that `w` leads to.
  abbrev pub IsOpened : World p → Result (Unit {0}) → Table → Type 0
  IsOpened w r after =
      let x = (p.file_exists (legacy_path p data_dir entries) w.ext).1 in
      Opened w x (p.read_file (legacy_path p data_dir entries) x).1 r after

  decoded_lem :
      (w v : World p) (x : p.Ext) (text : String) (o : Option (List (String × Meta)))
      → (p.file_exists (legacy_path p data_dir entries) w.ext).0 ≡ true
      → w.table ≡ []
      → v.table ≡ []
      → (p.read_file (legacy_path p data_dir entries) x).0 ≡ ok text
      → entries text ≡ o
      → Opened w x v.ext
          (import_decoded p data_dir entries o v).0
          (import_decoded p data_dir entries o v).1.table
  unfolding import_decoded insert_all
  decoded_lem w v x text none t e e' h d = not_json text t e h d refl e'
  decoded_lem w v x text (some es) t e e' h d =
      imported text es t e h d refl (λ k i. rw e' (import-ReadsAs (p.utcnow v.ext).0 k es i))

  read_lem :
      (w v : World p) (x : p.Ext) (r : Result String)
      → (p.file_exists (legacy_path p data_dir entries) w.ext).0 ≡ true
      → w.table ≡ []
      → v.table ≡ []
      → (p.read_file (legacy_path p data_dir entries) x).0 ≡ r
      → Opened w x v.ext
          (continue r (λ text. import_decoded p data_dir entries (entries text)) v).0
          (continue r (λ text. import_decoded p data_dir entries (entries text)) v).1.table
  read_lem w v x (err e) t empty empty' h = unread e t empty h refl empty'
  read_lem w v x (ok text) t empty empty' h =
      decoded_lem w v x text (entries text) t empty empty' h refl

  no_rows_lem : (t : Table) (b : Bool) → no_rows t ≡ b → if b then t ≡ [] else t ≢ []
  no_rows_lem [] true h = refl
  no_rows_lem [] false h = cc
  no_rows_lem (r ∷ t) true h = cc
  no_rows_lem (r ∷ t) false h = λ e. cc

  if_empty_lem :
      (b : Bool) (w v : World p) (x : p.Ext)
      → (p.file_exists (legacy_path p data_dir entries) w.ext).0 ≡ true
      → v ≡ record w { ext = x }
      → no_rows w.table ≡ b
      → Opened w x
          (p.read_file (legacy_path p data_dir entries) x).1
          (import_if_empty p data_dir entries b v).0
          (import_if_empty p data_dir entries b v).1.table
  unfolding import_if_empty read_text
  if_empty_lem false w v x t is h = rw is (has_rows t (no_rows_lem w.table false h) refl refl)
  if_empty_lem true w v x t is h =
      let e = no_rows_lem w.table true h in
      rw is (read_lem w _ x (p.read_file (legacy_path p data_dir entries) x).0 t e e refl)

  if_there_lem :
      (b : Bool) (w : World p) (x : p.Ext)
      → (p.file_exists (legacy_path p data_dir entries) w.ext).0 ≡ b
      → Opened w x
          (p.read_file (legacy_path p data_dir entries) x).1
          (import_if_there p data_dir entries b (record w { ext = x })).0
          (import_if_there p data_dir entries b (record w { ext = x })).1.table
  unfolding import_if_there is_empty
  if_there_lem false w x h = absent h refl refl
  if_there_lem true w x h = if_empty_lem (no_rows w.table) w (record w { ext = x }) x h refl refl

  -- Opening the registry ends in one of five ways. If the older registry's file is not there, or the
  -- table has rows, it returns and the table is as it was. Else the table is empty, and the file is read:
  -- if that raises, so does the opening; if the text is no JSON, it returns and the table stays empty;
  -- and if it has entries, it returns, and a read of any valid tenant id gives a row with the columns of
  -- the file's first entry for that id, with the defaults of the columns that the entry has not, and
  -- nothing if the file has no entry for it.
  pub open_store_imports :
      (w : World p)
      → IsOpened w (open_store p data_dir entries w).0 (open_store p data_dir entries w).1.table
  unfolding open_store is_file
  open_store_imports w =
      if_there_lem (p.file_exists (legacy_path p data_dir entries) w.ext).0 w
        (p.file_exists (legacy_path p data_dir entries) w.ext).1 refl
