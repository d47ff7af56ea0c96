-- ===== src/Exec.antt =====
-- What the control plane's procedures act on: the registry, and the systems outside it, which are
-- not part of the repository and enter as the parameter `Platform`. A procedure that raises leaves
-- what it has done before; Python's exceptions are `Result`.
mod Outside
pub mod Keeps
pub mod Ends
pub mod Returns
pub mod Poll
pub mod Frame
pub mod Undone
pub use Outside.*
use saas_ntier_lab.Prelude.{
  ℕ, ◌*◌, String, Bool, true, false, Option, none, some, List, [], ◌∷◌, ◌++◌, if◌then◌else◌,
}
use saas_ntier_lab.Errors.{Result, ok, err, Error, Kind, is_control_plane}
use saas_ntier_lab.Store
use saas_ntier_lab.Store.{Table, Row, Fields}

-- `log` is the model's own: the calls made so far, in order.
pub record World (p : Platform) : Type 0 where
  pub table : Table
  pub ext : p.Ext
  pub log : List Call

abbrev pub Exec : Platform → Type 0 → Type 0
Exec p A = World p → Result A × World p

module _ {p : Platform} where
  abbrev pub continue : {A B : Type 0} → Result A → (A → Exec p B) → Exec p B
  continue (ok a) f w = f a w
  continue (err e) f w = (err e, w)

  infixl 5 ◌>>=◌ ◌>>◌
  abbrev pub ◌>>=◌ : {A B : Type 0} → Exec p A → (A → Exec p B) → Exec p B
  ◌>>=◌ m f w = continue (m w).0 f (m w).1

  abbrev pub ◌>>◌ : {A B : Type 0} → Exec p A → Exec p B → Exec p B
  m >> k = m >>= λ _. k

  abbrev pub pure : {A : Type 0} → A → Exec p A
  pure a w = (ok a, w)

  abbrev pub raise : {A : Type 0} → Error → Exec p A
  raise e w = (err e, w)

  abbrev pub handle : {A : Type 0} → Result A → (Error → Exec p A) → Exec p A
  handle (ok a) h w = (ok a, w)
  handle (err e) h w = h e w

  -- `try: m` with `except Exception as exc: h exc`
  abbrev pub catch : {A : Type 0} → Exec p A → (Error → Exec p A) → Exec p A
  catch m h w = handle (m w).0 h (m w).1

  -- A pure function that may raise.
  abbrev pub lift : {A : Type 0} → Result A → Exec p A
  lift r w = (r, w)

  -- `raise_if` a test holds.
  abbrev pub raise_if : Bool → Error → Exec p (Unit {0})
  raise_if b e w = (if b then err e else ok tt, w)

  -- `store.get(tenant_id)`
  unfoldable pub store_get : String → Exec p (Option Row)
  store_get k w = (ok (Store.get w.table k), w)

  -- `store.list()`
  unfoldable pub store_list : Exec p (List Row)
  store_list w = (ok (Store.list w.table), w)

  abbrev write : Result Row × Table → p.Ext → List Call → Result Row × World p
  write (r, t) x l = (r, record { table = t; ext = x; log = l })

  -- `store.upsert(tenant_id, **fields)`, with no expected version
  unfoldable pub store_upsert : String → Fields → Exec p Row
  store_upsert k f w =
      let (now, x) = p.utcnow w.ext in write (Store.upsert now k none f w.table) x w.log

  -- `store.delete(tenant_id)`
  unfoldable pub store_delete : String → Exec p Bool
  store_delete k w = let (b, t) = Store.delete k w.table in (ok b, record w { table = t })

  -- One subprocess, with its command line in the log.
  unfoldable pub spawn : List String → Exec p Exit
  spawn cmd w =
      let (e, x) = p.subprocess cmd w.ext in
      (ok e, record { table = w.table; ext = x; log = w.log ++ command cmd ∷ [] })

  -- One boto3 call.
  unfoldable pub aws_call : AwsCall → Exec p AwsReply
  aws_call c w =
      let (r, x) = p.aws c w.ext in
      (ok r, record { table = w.table; ext = x; log = w.log ++ aws c ∷ [] })

  -- `time.sleep`, in seconds
  unfoldable pub sleep_for : ℕ → Exec p (Unit {0})
  sleep_for n w = (ok tt, record w { ext = p.sleep (n * 1000) w.ext })

  -- `tofu_outputs` of helm/test-app/onboard_tenant.py: `tofu output -json`, decoded.
  unfoldable pub tofu_outputs : Exec p Outputs
  tofu_outputs w = let (r, x) = p.tofu_output w.ext in (r, record w { ext = x })

  -- A subprocess whose output is read.
  unfoldable pub capture_of : List String → Exec p (Exit × String)
  capture_of cmd w =
      let (r, x) = p.capture cmd w.ext in
      (ok r, record { table = w.table; ext = x; log = w.log ++ command cmd ∷ [] })

  -- A subprocess that is given an input.
  unfoldable pub feed_to : List String → String → Exec p Exit
  feed_to cmd text w =
      let (e, x) = p.feed cmd text w.ext in
      (ok e, record { table = w.table; ext = x; log = w.log ++ fed cmd text ∷ [] })

  unfoldable pub read_text : String → Exec p String
  read_text path w = let (r, x) = p.read_file path w.ext in (r, record w { ext = x })

  unfoldable pub write_text : String → String → Exec p (Unit {0})
  write_text path text w =
      let (r, x) = p.write_file path text w.ext in
      (r, record { table = w.table; ext = x; log = w.log ++ wrote path text ∷ [] })

  -- `secrets.choice`
  unfoldable pub choose : String → Exec p String
  choose alphabet w = let (c, x) = p.choice alphabet w.ext in (ok c, record w { ext = x })

  -- `time.time()`
  unfoldable pub time_now : Exec p ℕ
  time_now w = let (t, x) = p.now w.ext in (ok t, record w { ext = x })

  unfoldable pub is_file : String → Exec p Bool
  is_file path w = let (b, x) = p.file_exists path w.ext in (ok b, record w { ext = x })

  unfoldable pub fetch_url : String → Exec p String
  fetch_url url w = let (r, x) = p.fetch url w.ext in (r, record w { ext = x })

  unfoldable pub which_of : String → Exec p (Option String)
  which_of name w = let (r, x) = p.which name w.ext in (ok r, record w { ext = x })
