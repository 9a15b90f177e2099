-- ===== src/Audit/Files.antt =====
-- The files of the audit log and their rotation.
use runixo_agent.Prelude.{
  ℕ, zero, suc, ◌-◌, ◌*◌, Bool, true, false, not, ◌&&◌, Option, none, some, is_some, List, [], ◌∷◌,
  ◌++◌, Text, length, ltb, ◌==◌, if◌then◌else◌,
}
use runixo_agent.Audit.{Event, Config}

-- The log file, and `<log>.<i>`.
pub data LogFile : Type 0 where
  current : LogFile
  backup : ℕ → LogFile

-- What a file holds, if it is there.
abbrev pub Files : Type 0
Files = LogFile → Option Text

abbrev pub same_file : LogFile → LogFile → Bool
same_file current current = true
same_file current (backup n) = false
same_file (backup n) current = false
same_file (backup n) (backup m) = n == m

unfoldable pub remove : LogFile → Files → Files
remove file fs f = if same_file f file then none else fs f

-- Renaming a file that is not there is an error, and changes nothing.
unfoldable pub rename : LogFile → LogFile → Files → Files
rename old new fs f =
    if not (is_some (fs old))
    then fs f
    else if same_file f new
    then fs old
    else if same_file f old
    then none
    else fs f

-- The loop, from `i` down to 1.
unfoldable pub shift : ℕ → Files → Files
unfolding rename
shift zero fs = fs
shift (suc i) fs = shift i (rename (backup (suc i)) (backup (suc (suc i))) fs)

unfoldable pub rotate_files : ℕ → Files → Files
unfolding remove rename shift
rotate_files max_backups fs =
    rename current (backup 1) (shift (max_backups - 1) (remove (backup max_backups) fs))

-- The file handle of the logger: none, one that can be written, or one that is closed.
pub data Handle : Type 0 where
  nil open_handle closed : Handle

pub record Log : Type 0 where
  pub handle : Handle
  pub files : Files

-- A file that is not there is made empty.
unfoldable pub open_log_file : Bool → Log → Log
open_log_file opens l =
    if opens
    then record {
      handle = open_handle;
      files = λ f. if same_file f current && not (is_some (l.files f)) then some [] else l.files f;
    }
    else l

abbrev size_of : Option Text → ℕ
size_of none = 0
size_of (some s) = length s

-- A handle that is closed has no size, and the check ends.
unfoldable pub check_rotate : Bool → Config → Log → Log
unfolding rotate_files open_log_file
check_rotate opens config l = elim l.handle [
  | nil ↦ l
  | closed ↦ l
  | open_handle ↦
      if ltb (size_of (l.files current)) (config.max_size_mb * 1_048_576)
      then l
      else open_log_file opens
          (record { handle = closed; files = rotate_files config.max_backups l.files })
]

abbrev append_to : Text → Option Text → Option Text
append_to line none = none
append_to line (some s) = some (s ++ line)

unfoldable pub write_line : Text → Log → Log
write_line line l = elim l.handle [
  | nil ↦ l
  | closed ↦ l
  | open_handle ↦ record l {
    files = λ f. if same_file f current then append_to line (l.files f) else l.files f;
  }
]

-- `encode` gives none where the event has no JSON.
unfoldable pub write_event : (Event → Option Text) → Bool → Config → Event → Log → Log
unfolding check_rotate write_line
write_event encode opens config event l = elim (encode event) [
  | none ↦ check_rotate opens config l
  | some data_ ↦ write_line (data_ ++ (b'\n' ∷ [])) (check_rotate opens config l)
]

-- Closing the log, and the end of the loop that writes the events left.
unfoldable pub write_all : (Event → Option Text) → Bool → Config → List Event → Log → Log
unfolding write_event
write_all encode opens config [] l = l
write_all encode opens config (event ∷ events) l =
    write_all encode opens config events (write_event encode opens config event l)
