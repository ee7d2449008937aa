-- ===== src/ObjectDb/Commit/Reported.antt =====
-- What the log entry of a commit (buildBatch in core/objectdb/objectdb.go) tells of each record.
use naust_jmap.Prelude.{Bool, Bytes}
use naust_jmap.Prelude.GoMap
use naust_jmap.ObjectDb.Changes.{Entry, seen}
use naust_jmap.ObjectDb.Schema.{Codec}
use naust_jmap.ObjectDb.Update.{Update, World}
use naust_jmap.ObjectDb.Commit.{entry_for}
use naust_jmap.ObjectDb.Commit.Lines.{Line, ids_in}

module _ (c : Codec) (w : World) (acct : Bytes) (type_name id : Bytes) where
  ids_of_line : Line → Entry → Bool
  ids_of_line l e = seen id (ids_in l (entry_for type_name e))
