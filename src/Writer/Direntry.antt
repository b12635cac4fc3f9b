-- ===== src/Writer/Direntry.antt =====
-- direntry, encodeDirentry and emptyDirentry of writer.go.
pub mod Parse
use go_cfb.Base.{
  ℕ, zero, suc, ◌+◌, ◌-◌, ◌*◌, List, ◌++◌, Option, none, some, ltb, if◌then◌else◌, replicate,
  length,
}
use go_cfb.Bytes.{put_u8, put_u16, put_u32, put_u64, put_u16s}
use go_cfb.Format.{direntry_size, name_max_units, color_black, no_stream}

-- direntry
pub record Direntry : Type 0 where
  pub name : List ℕ
  pub clsid : List ℕ
  pub state_bits : ℕ
  pub created : ℕ
  pub modified : ℕ
  pub size : ℕ
  pub object_type : ℕ
  pub left_sib : ℕ
  pub right_sib : ℕ
  pub child_id : ℕ
  pub start_sec : ℕ

-- The bytes that are written, all of the buffer. `clsid` has 16 bytes.
unfoldable pub entry_bytes : Direntry → List ℕ
entry_bytes de =
    put_u16s de.name
    ++ (replicate (2 * (name_max_units - length de.name)) 0
        ++ (put_u16 ((length de.name + 1) * 2)
            ++ (put_u8 de.object_type
                ++ (put_u8 color_black
                    ++ (put_u32 de.left_sib
                        ++ (put_u32 de.right_sib
                            ++ (put_u32 de.child_id
                                ++ (de.clsid
                                    ++ (put_u32 de.state_bits
                                        ++ (put_u64 de.created
                                            ++ (put_u64 de.modified
                                                ++ (put_u32 de.start_sec
                                                    ++ put_u64 de.size))))))))))))

-- A name of more than 32 code units does not fit its field, and panics (`none`).
unfoldable pub encode_direntry : Direntry → Option (List ℕ)
encode_direntry de = if ltb name_max_units (length de.name) then none else some (entry_bytes de)

-- An unallocated entry: zeros, but for the three links.
unfoldable pub empty_direntry : List ℕ
empty_direntry =
    replicate 68 0
    ++ (put_u32 no_stream
        ++ (put_u32 no_stream ++ (put_u32 no_stream ++ replicate (direntry_size - 80) 0)))
