-- ===== src/File/RoundTrip.antt =====
-- model/file_info.cpp: a file made from a message writes the message back.
use syncspirit.Prelude.{
  ◌≡◌, Bool, true, false, [], some, arith, if◌then◌else◌, Option-cases, inl, inr,
}
use syncspirit.Version.{from_proto}
use syncspirit.Version.Wire.{IsPlain, to_proto-from_proto}
use syncspirit.File.{FileInfo, FileType, file}
use syncspirit.File.Wire.{
  Blocks, ProtoFile, ProtoBlock, fields_update, as_proto, get_size, get_block_size,
}

abbrev is_file_type : FileType → Bool
is_file_type file = true
is_file_type _ = false

-- The message of a file without its blocks, whose sizes are those of the blocks.
abbrev pub described : Blocks → FileInfo → ProtoFile → ProtoFile
described store f source = record source {
  size = if is_file_type source.type then get_size store f else 0;
  block_size = if is_file_type source.type then get_block_size store f else 0;
  blocks = [];
  symlink_target = if is_file_type source.type then [] else source.symlink_target;
}

-- Every field of a message but the blocks and the sizes taken from them is kept by the file made
-- from it, whatever the file was before; a file keeps no link target.
pub as_proto-fields_update :
    (store : Blocks) (empty_block : ProtoBlock) (source : ProtoFile) (f g : FileInfo)
    → IsPlain source.version
    → fields_update source f ≡ some g
    → as_proto store empty_block false g ≡ some (described store g source)
unfolding fields_update as_proto
as_proto-fields_update store empty_block source f g plain e =
    elim (Option-cases (from_proto source.version)) [
      | inl empty ↦ ground arith
      | inr (v, parsed) ↦ ground (arith, to_proto-from_proto source.version v plain parsed)
    ]
