-- ===== src/FileStorage/Replacement.antt =====
-- storage.go: what a Transact of FileStorage writes, decided by the texts of the documents.
use stripelink.Prelude.{ℕ, Option, none, some, if◌then◌else◌}
use stripelink.Errors.{Result, ok, ◌>>=◌}
use stripelink.Json.{codes_eq}
use stripelink.Session.{AuthStorageState}
use stripelink.StorageCodec.{Document, blame, replace_snapshot}
use stripelink.Disk.{System}

-- Nothing, if the text stays.
unfoldable pub replacement : System → ℕ → Document → AuthStorageState → Result (Option Document)
replacement sys now raw new = do
  before ← blame "encode auth storage state" (sys.marshal raw)
  state ← replace_snapshot now raw new
  after ← blame "encode auth storage state" (sys.marshal state)
  ok (if codes_eq before after then none else some state)
