-- ===== src/Server/Tests.antt =====
-- The theorems of the gRPC server at concrete inputs, and runs of the code.
use runixo_agent.Prelude.{
  some-injective, inl, inr, sym, ap, ℕ, ◌≡◌, ◌↔◌, refl, true, false, Option, none, some, List, [],
  ◌∷◌, Text, codes, text_eq, arith, contains, has_prefix, split, join, search_from, ltb,
  if◌then◌else◌,
}
use runixo_agent.Security.Path.{
  is_abs, clean, clean_parts, push_part, go_up, join_path, abs_path, or_dot, dir_path,
}
use runixo_agent.Security.Paths.{
  sanitize_path, validate_path, validate_path_for_write, check_real, find_prefix,
}
use runixo_agent.Plugin.Archive.{is_inside}
use runixo_agent.Server.Archives.{
  climbs, link_climbs, link, other, entries, check_tar, check_entries, check_entry, check_link,
  validate_tar_gz_before_extract,
}
use runixo_agent.Server.Uploads.{
  Start, Message, start, chunk, finish, Disk, Upload, file, upload_file, receive_all, receive,
  receive_start, receive_chunk, start_clean, start_checked, open_file, finish_upload,
}
use runixo_agent.Server.Uploads.Safe.{IsStored, upload_file-IsStored}
use runixo_agent.Server.Proxy.{
  Ip, v4, Answer, is_blocked_ip, any_blocked, Network, dial, is_loopback, is_private,
  is_link_local_unicast, is_link_local_multicast, is_unspecified, is_metadata, dial_checked,
  check_host,
}
use runixo_agent.Server.Proxy.Ranges.{number, IsInside, is_blocked_ip_iff}
use runixo_agent.Server.Proxy.Rebinding.{DialsGiven, dial-unblocked}
use runixo_agent.Server.Handlers.{
  FileSystem, delete_file, delete_clean, delete_checked, delete_real, delete_at,
}
use runixo_agent.Server.Handlers.Deletes.{IsRemoved, delete_file-IsRemoved}

abbrev disk : Disk
disk = record {
  cwd = codes "/";
  eval_symlinks = λ path. none;
  makes_dirs = λ path. true;
  opens = λ path. true;
  writes = λ bytes. true;
  tar = λ content. entries [] true;
  unpacks = λ content. true;
  walked = λ path. [];
}

abbrev begin_upload : Start
begin_upload = record {
  path = codes "/tmp/a";
  total_size = 2;
  is_tar_gz = false;
  extract_to = [];
  create_dirs = true;
}

abbrev messages : List Message
messages = start begin_upload ∷ chunk (codes "h") ∷ chunk (codes "i") ∷ finish ∷ []

abbrev uploaded : Upload
uploaded = record {
  path = codes "/tmp/a";
  content = codes "hi";
  received = 2;
  is_tar_gz = false;
  extract_to = [];
}

upload_file-IsStored_example : IsStored disk (file uploaded)
unfolding upload_file receive_all receive receive_start receive_chunk start_clean start_checked
    open_file finish_upload sanitize_path is_abs has_prefix clean clean_parts go_up or_dot push_part
    join_path dir_path contains search_from join split text_eq validate_path_for_write validate_path
    check_real find_prefix
upload_file-IsStored_example = upload_file-IsStored disk refl (file uploaded) messages true refl

is_blocked_ip_iff_example : (is_blocked_ip (v4 172 31 0 1) ≡ true) ↔ IsInside (number 172 31 0 1)
is_blocked_ip_iff_example =
    is_blocked_ip_iff 172 31 0 1 (omega arith) (omega arith) (omega arith) (omega arith)

-- A name server that answers with a public address, and later with one of the machine itself.
abbrev answers : ℕ → Text → Option (List Ip)
answers query host = elim (text_eq host (codes "steady")) [
  | true ↦ some (v4 8 8 8 8 ∷ v4 8 8 4 4 ∷ [])
  | false ↦ if ltb query 2 then some (v4 8 8 8 8 ∷ v4 8 8 4 4 ∷ []) else some (v4 127 0 0 1 ∷ [])
]

abbrev page : Answer
page = record { status_code = 200; headers = []; body = codes "hi"; whole = true }

-- A dialer that ends up with the last address.
abbrev reach_last : List Ip → Option (Ip × Answer)
reach_last [] = none
reach_last (ip ∷ []) = some (ip, page)
reach_last (ip ∷ next ∷ ips) = reach_last (next ∷ ips)

abbrev network : Network
network = record {
  parse_url = λ url. some (record { scheme = codes "http"; host = url });
  parse_ip = λ host. none;
  lookup_ip = answers;
  accepts_request = λ method url. true;
  reach = reach_last;
}

reach_last-DialsGiven : DialsGiven network
reach_last-DialsGiven [] ip answer h = absurd cc
reach_last-DialsGiven (i ∷ []) ip answer h = inl (sym (ap (λ p. p.0) (some-injective h)))
reach_last-DialsGiven (i ∷ next ∷ ips) ip answer h =
    inr (reach_last-DialsGiven (next ∷ ips) ip answer h)

dial-unblocked_example : is_blocked_ip (v4 8 8 4 4) ≡ false
unfolding text_eq dial dial_checked check_host any_blocked is_blocked_ip is_loopback is_private
    is_link_local_unicast is_link_local_multicast is_unspecified is_metadata
dial-unblocked_example =
    dial-unblocked network (codes "steady") (v4 8 8 4 4) page reach_last-DialsGiven refl refl

abbrev files : FileSystem
files = record { eval_symlinks = λ path. none; remove_all = λ path. true }

delete_file-IsRemoved_example :
    (clean_path : Text) × (sanitize_path (codes "/tmp//a") ≡ some clean_path)
    × (clean_path ≡ codes "/tmp/a")
    × IsRemoved files clean_path
unfolding delete_file delete_clean delete_checked delete_real delete_at sanitize_path is_abs
    has_prefix clean clean_parts go_up or_dot push_part join_path dir_path contains search_from join
    split text_eq validate_path_for_write validate_path check_real find_prefix
delete_file-IsRemoved_example = delete_file-IsRemoved files (codes "/tmp/a") (codes "/tmp//a") refl

-- An entry that climbs and a link that leads out are refused.
climbing :
    validate_tar_gz_before_extract
      (codes "/")
      (codes "/d")
      (entries (record { name = codes "../x"; kind = other } ∷ []) true)
    ≡ some climbs
unfolding validate_tar_gz_before_extract check_tar check_entries check_entry check_link
    sanitize_path is_abs has_prefix clean clean_parts go_up or_dot push_part join_path dir_path
    contains search_from join split text_eq validate_path_for_write validate_path check_real
    find_prefix is_inside abs_path
climbing = refl

linking :
    validate_tar_gz_before_extract
      (codes "/")
      (codes "/d")
      (entries (record { name = codes "a"; kind = link (codes "../x") } ∷ []) true)
    ≡ some link_climbs
unfolding validate_tar_gz_before_extract check_tar check_entries check_entry check_link
    sanitize_path is_abs has_prefix clean clean_parts go_up or_dot push_part join_path dir_path
    contains search_from join split text_eq validate_path_for_write validate_path check_real
    find_prefix is_inside abs_path
linking = refl
