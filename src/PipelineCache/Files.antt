-- ===== src/PipelineCache/Files.antt =====
-- `write_atomically` (src/pipeline_cache.rs) and what a reader can see of it.
use gpu_info_rs.Prelude.{
  ℕ, Bool, true, false, Option, none, some, List, [], ◌∷◌, ◌++◌, map, Result, ok, err,
}

abbrev pub Bytes : Type 0
Bytes = List ℕ

-- The file of a cache and the temporary file of this process, where they exist.
pub record Disk : Type 0 where
  pub target : Option Bytes
  pub temp : Option Bytes

-- The kinds of `std::io::Error` are not told apart here.
pub data IoError : Type 0 where
  no_directory no_write no_rename : IoError

-- Which call fails, and what the temporary file holds at each moment of its writing.
pub record Fate : Type 0 where
  pub directory : Bool
  pub parts : List Bytes
  pub write : Bool
  pub rename : Bool

-- What others can see one after another, the disk at the end, and the result.
pub record Written : Type 0 where
  pub seen : List Disk
  pub disk : Disk
  pub result : Result (Unit {0}) IoError

abbrev pub with_temp : Disk → Bytes → Disk
with_temp d bytes = record d { temp = some bytes }

-- The content that a failed write leaves.
abbrev pub left_by : Disk → List Bytes → Disk
left_by d [] = d
left_by d (b ∷ []) = with_temp d b
left_by d (b ∷ c ∷ bs) = left_by d (c ∷ bs)

abbrev renamed : Bool → List Disk → Bytes → Disk → Written
renamed true before bytes d =
    let after : Disk = record { target = some bytes; temp = none } in
    record { seen = before ++ with_temp d bytes ∷ after ∷ []; disk = after; result = ok tt }
renamed false before bytes d = record {
  seen = before ++ with_temp d bytes ∷ [];
  disk = with_temp d bytes;
  result = err no_rename;
}

abbrev written : Fate → Bool → Bytes → Disk → Written
written f true bytes d = renamed f.rename (map (with_temp d) f.parts) bytes d
written f false bytes d = record {
  seen = map (with_temp d) f.parts;
  disk = left_by d f.parts;
  result = err no_write;
}

abbrev made : Fate → Bool → Bytes → Disk → Written
made f true bytes d = written f f.write bytes d
made f false bytes d = record { seen = []; disk = d; result = err no_directory }

-- The sibling temporary file is written, then renamed over the file. No other call of this process
-- writes it meanwhile: two caches of one process with the same key would share it.
unfoldable pub write_atomically : Fate → Bytes → Disk → Written
write_atomically f bytes d = made f f.directory bytes d
