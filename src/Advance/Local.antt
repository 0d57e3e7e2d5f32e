-- ===== src/Advance/Local.antt =====
-- model/diff/advance/local_update.cpp: the advance that a change on the disk makes. The clock, the
-- id of the own device and the block of an empty file are arguments.
use syncspirit.Prelude.{
  ℕ, Bool, true, false, ◌&&◌, ◌||◌, List, [], ◌∷◌, Option, none, some, if◌then◌else◌, ◌==◌, length,
}
use syncspirit.Version
use syncspirit.Version.{Version, to_proto}
use syncspirit.File.{FileInfo, BlockRef, as_type, is_file, is_deleted, is_invalid, file_blocks}
use syncspirit.File.Wire.{
  Blocks, ProtoFile, ProtoBlock, as_proto, get_size, same_text, same_type, same_bool,
}
use syncspirit.FileMap.{FolderInfo, by_name}
use syncspirit.Resolver.{Sign, negative, zero_sign, positive, compare}
use syncspirit.Advance.{Advance, initialize}

-- The loop over the blocks of the candidate, which ends at a null pointer.
unfoldable pub same_blocks : Blocks → List BlockRef → List ProtoBlock → Bool
same_blocks store [] bs = true
same_blocks store (r ∷ rs) [] = true
same_blocks store (r ∷ rs) (b ∷ bs) = elim r.block [
  | none ↦ true
  | some a ↦ same_text (store a).hash b.hash && same_blocks store rs bs
]

-- Whether a file of a peer is the one that is found on the disk.
unfoldable pub is_match : Blocks → ProtoFile → FileInfo → Bool
unfolding same_blocks get_size as_type
is_match store local candidate =
    (get_size store candidate == local.size)
    && (same_type local.type (as_type candidate.flags)
        && (same_bool local.deleted (is_deleted candidate)
            && (same_bool local.invalid (is_invalid candidate)
                && ((same_bool local.no_permissions candidate.flags.no_permissions
                      || (local.permissions == candidate.permissions))
                    && (if is_file candidate
                        then (length (file_blocks candidate) == length local.blocks)
                          && same_blocks store (file_blocks candidate) local.blocks
                        else true)))))

unfoldable pub match_of : Blocks → ℕ → ProtoFile → FolderInfo → Option FileInfo
unfolding is_match
match_of store self local fi =
    if fi.device == self then none else elim (by_name local.name fi.files) [
      | none ↦ none
      | some candidate ↦ if is_match store local candidate then some candidate else none
    ]

-- `compare(...) > 1`, where the sign stands for -1, 0 and 1.
unfoldable pub exceeds_one : Sign → Bool
exceeds_one negative = false
exceeds_one zero_sign = false
exceeds_one positive = false

unfoldable pub prefer : Option FileInfo → Option FileInfo → Option FileInfo
unfolding exceeds_one
prefer r none = r
prefer none (some peer_file) = some peer_file
prefer (some best) (some peer_file) =
    if exceeds_one (compare peer_file best) then some peer_file else some best

-- The loop of `get_original`, with what is found so far.
unfoldable pub get_original :
    Blocks → ℕ → ProtoFile → List FolderInfo → Option FileInfo → Option FileInfo
unfolding match_of prefer
get_original store self local [] r = r
get_original store self local (fi ∷ fis) r =
    get_original store self local fis (prefer r (match_of store self local fi))

-- The version of a change: an update of that of the own file, or a first one.
unfoldable pub next_version : ℕ → ℕ → Option FileInfo → Version
next_version id now none = Version.update id now (record { counters = [] })
next_version id now (some file) = Version.update id now file.version

abbrev pub with_version : Version → Advance → Advance
with_version version diff = record diff {
  proto_local = record diff.proto_local { version = to_proto version };
}

-- The identifier, which `initialize` leaves out where it does not remove blocks.
abbrev pub with_uuid : Bool → Option FileInfo → Advance → Advance
with_uuid disable_blocks_removal none diff = diff
with_uuid disable_blocks_removal (some file) diff =
    if disable_blocks_removal then record diff { uuid = file.uuid } else diff

-- What the constructor reads of the cluster.
pub record Cluster : Type 0 where
  pub store : Blocks
  pub hashes : List (List ℕ)
  pub self : ℕ
  pub id : ℕ
  pub now : ℕ
  pub empty_block : ProtoBlock
  pub folder_infos : List FolderInfo
  pub local_files : List FileInfo

-- The constructor of `local_update_t`.
unfoldable pub make_local_update : ℕ → ℕ → Bool → Cluster → ProtoFile → Option Advance
unfolding get_original next_version
make_local_update fresh unset disable c f =
    let local_file = by_name f.name c.local_files in
    if length f.name == 0 then none else elim (get_original c.store c.self f c.folder_infos none) [
      | some original ↦ elim (as_proto c.store c.empty_block true original) [
        | none ↦ none
        | some source ↦
            initialize fresh unset disable true c.hashes c.store c.local_files source f.name
      ]
      | none ↦
          elim (initialize fresh unset disable true c.hashes c.store c.local_files
            (record f { modified_by = c.id }) f.name) [
              | none ↦ none
              | some diff ↦ some (
                  with_version (next_version c.id c.now local_file)
                    (with_uuid disable local_file diff))
            ]
    ]
