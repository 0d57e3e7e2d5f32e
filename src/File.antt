-- ===== src/File.antt =====
-- model/file_info.{h,cpp}: the metadata of a file in a folder of one device. The flags word is kept
-- as its ten named bits; a block pointer is kept as the block's address beside its tag, the LOCAL
-- bit; addresses of blocks lead into a store. Sequence numbers and sizes are not negative.
pub mod Wire
pub mod Store
pub mod Size
pub mod Available
pub mod RoundTrip
pub mod Linked
use syncspirit.Prelude.{
  ℕ, zero, suc, ◌+◌, ◌-◌, ◌*◌, ◌%◌, ◌^◌, Bool, true, false, not, ◌&&◌, ◌||◌, List, [], ◌∷◌, ◌++◌,
  Option, none, some, if◌then◌else◌, ltb, ◌==◌, length, map,
}
use syncspirit.Prelude.Int.{ℤ}
use syncspirit.Version.{Version}
use syncspirit.Block.{BlockInfo}

pub record Flags : Type 0 where
  pub type_file : Bool
  pub type_dir : Bool
  pub type_link : Bool
  pub deleted : Bool
  pub invalid : Bool
  pub no_permissions : Bool
  pub synchronizing : Bool
  pub unreachable : Bool
  pub local : Bool
  pub available : Bool

pub data FileType : Type 0 where
  file directory symlink : FileType

-- `(flags & ~0b111111) | as_flags(type)`.
unfoldable pub reset_flags : FileType → Flags → Flags
reset_flags type flags = record flags {
  type_file = elim type [ file ↦ true | directory ↦ false | symlink ↦ false ];
  type_dir = elim type [ file ↦ false | directory ↦ true | symlink ↦ false ];
  type_link = elim type [ file ↦ false | directory ↦ false | symlink ↦ true ];
  deleted = false;
  invalid = false;
  no_permissions = false;
}

unfoldable pub as_type : Flags → FileType
as_type flags = if flags.type_dir then directory else if flags.type_link then symlink else file

-- A tagged pointer to a block; `none` is the null pointer.
pub record BlockRef : Type 0 where
  pub block : Option ℕ
  pub local : Bool

abbrev pub null_ref : BlockRef
null_ref = record { block = none; local = false }

-- The union of `size_full_t` and `size_less_t`, which the file bit of the flags tells apart.
pub data Content : Type 0 where
  blocks : List BlockRef → Content
  symlink_target : List ℕ → Content

pub record FileInfo : Type 0 where
  pub address : ℕ
  pub uuid : ℕ
  pub name : List ℕ
  pub modified_s : ℤ
  pub modified_ns : ℕ
  pub modified_by : ℕ
  pub sequence : ℕ
  pub permissions : ℕ
  pub content : Content
  pub version : Version
  pub flags : Flags

abbrev pub is_file : FileInfo → Bool
is_file f = f.flags.type_file

abbrev pub is_link : FileInfo → Bool
is_link f = f.flags.type_link

abbrev pub is_deleted : FileInfo → Bool
is_deleted f = f.flags.deleted

abbrev pub is_invalid : FileInfo → Bool
is_invalid f = f.flags.invalid

abbrev pub is_unreachable : FileInfo → Bool
is_unreachable f = f.flags.unreachable

abbrev pub is_local : FileInfo → Bool
is_local f = f.flags.local

abbrev pub content_blocks : Content → List BlockRef
content_blocks (blocks refs) = refs
content_blocks (symlink_target target) = []

-- `content.file.blocks`, where the file bit is set.
abbrev pub file_blocks : FileInfo → List BlockRef
file_blocks f = content_blocks f.content

abbrev pub content_target : Content → List ℕ
content_target (blocks refs) = []
content_target (symlink_target target) = target

unfoldable pub get_link_target : FileInfo → List ℕ
get_link_target f = if is_link f then content_target f.content else []

-- `static_cast<uint32_t>(blocks.size())` of those with the tag.
unfoldable pub count_local : List BlockRef → ℕ
count_local [] = 0
count_local (r ∷ rs) = if r.local then suc (count_local rs) else count_local rs

unfoldable pub mark_unreachable : Bool → FileInfo → FileInfo
mark_unreachable value f = record f { flags = record f.flags { unreachable = value } }

unfoldable pub synchronizing_lock : FileInfo → FileInfo
synchronizing_lock f = record f { flags = record f.flags { synchronizing = true } }

unfoldable pub synchronizing_unlock : FileInfo → FileInfo
synchronizing_unlock f = record f { flags = record f.flags { synchronizing = false } }

abbrev all_local : FileInfo → Bool
all_local f = not (is_file f) || length (file_blocks f) == count_local (file_blocks f)

unfoldable pub mark_local : Bool → FileInfo → FileInfo
unfolding count_local
mark_local true f = record f {
  flags = record f.flags {
    local = true;
    unreachable = false;
    available = f.flags.available || all_local f;
  };
}
mark_local false f = record f { flags = record f.flags { local = false; available = false } }

-- `is_locally_available(block_index)`; `none` is the failed assertion.
unfoldable pub is_block_available : List BlockRef → ℕ → Option Bool
is_block_available [] i = none
is_block_available (r ∷ rs) zero = some r.local
is_block_available (r ∷ rs) (suc i) = is_block_available rs i

unfoldable pub is_locally_available : FileInfo → Bool
is_locally_available f = not (is_file f) || (f.flags.available || length (file_blocks f) == 0)

-- `blocks_iterator_t::is_locally_available`.
unfoldable pub all_tagged : List BlockRef → Bool
all_tagged [] = true
all_tagged (r ∷ rs) = r.local && all_tagged rs

unfoldable pub iterator_is_locally_available : FileInfo → Bool
unfolding all_tagged
iterator_is_locally_available f = is_file f && all_tagged (file_blocks f)
