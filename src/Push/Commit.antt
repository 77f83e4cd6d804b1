-- ===== src/Push/Commit.antt =====
-- What `commit` keeps, and what it puts in front of the buffer.
use coseva.Prelude.{Option, ℕ, true, [], ◌++◌, not, ◌≡◌, ◌&&◌, if◌then◌else◌, Bytes, arith}
use coseva.Emit.Scan.{bom}
use coseva.Push.{PushEmitter, emits_bom, commit}

-- Everything but the buffer and the flag stays.
pub record SameSettings (v v' : PushEmitter) : Type 0 where
  pub same_dialect : v'.dialect ≡ v.dialect
  pub same_quoting : v'.quoting ≡ v.quoting
  pub same_write_bom : v'.write_bom ≡ v.write_bom
  pub same_nulls : v'.nulls ≡ v.nulls
  pub same_field_count : v'.field_count ≡ v.field_count

pub commit-SameSettings :
    (v : PushEmitter) (out : Bytes) (expected : Option ℕ) (start : ℕ)
    → SameSettings v (commit (record v { buffer = out; expected_fields = expected }) start)
unfolding commit
commit-SameSettings v out expected start = record {
  same_dialect = ground arith;
  same_quoting = ground arith;
  same_write_bom = ground arith;
  same_nulls = ground arith;
  same_field_count = ground arith;
}

pub commit-expected_fields :
    (v : PushEmitter) (start : ℕ) → (commit v start).expected_fields ≡ v.expected_fields
unfolding commit
commit-expected_fields v start = ground arith

pub commit-started : (v : PushEmitter) (start : ℕ) → (commit v start).started ≡ true
unfolding commit
commit-started v start = ground arith

-- what stands in front of the first record of a document
abbrev pub opening : PushEmitter → Bytes
opening v = if not v.started && emits_bom v.write_bom then bom else []

pub commit-buffer : (v : PushEmitter) (start : ℕ) → (commit v start).buffer ≡ opening v ++ v.buffer
unfolding commit
commit-buffer v start = ground arith
