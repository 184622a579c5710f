-- ===== src/Wal/Codec.antt =====
-- Records and frames read back as they were written.
use memorylayer_storage.Prelude.{
  ℕ, ◌/◌, ◌%◌, ◌^◌, ◌<◌, ◌≡◌, refl, ap, true, false, none, some, List, [], ◌++◌, length, drop,
  length-append, length-drop, take-append, drop-append, ltb, ◌==◌, arith,
}
use memorylayer_storage.Wal.{
  Record, put_uint32, put_uint64, uint32, uint64, marshal, unmarshal_record, frame, read_frame,
  record_payload_len,
}

-- The fields are of their Go types.
pub record Fits (r : Record) : Type 0 where
  pub seq : r.seq < 2 ^ 64
  pub op : r.op < 2 ^ 8
  pub ino : r.ino < 2 ^ 64
  pub indx : r.indx < 2 ^ 32
  pub off : r.off < 2 ^ 32
  pub slice_id : r.slice_id < 2 ^ 64
  pub size : r.size < 2 ^ 32
  pub slice_off : r.slice_off < 2 ^ 32
  pub slice_len : r.slice_len < 2 ^ 32

uint32-put_uint32 : (v : ℕ) (bs : List ℕ) → v < 2 ^ 32 → uint32 (put_uint32 v ++ bs) ≡ v
uint32-put_uint32 v bs h = omega arith

uint64-put_uint64 : (v : ℕ) (bs : List ℕ) → v < 2 ^ 64 → uint64 (put_uint64 v ++ bs) ≡ v
uint64-put_uint64 v bs h =
    let hi : uint32 (put_uint32 (v / 2 ^ 32)) ≡ v / 2 ^ 32 =
      uint32-put_uint32 (v / 2 ^ 32) [] (omega arith) in
    let lo : uint32 (put_uint32 (v % 2 ^ 32)) ≡ v % 2 ^ 32 =
      uint32-put_uint32 (v % 2 ^ 32) [] (omega arith) in
    rw (hi, lo) (omega arith)

length-marshal : (r : Record) → length (marshal r) ≡ record_payload_len
unfolding marshal
length-marshal r = refl

same_fields :
    (r : Record) (a b c d e f g h i : ℕ)
    → a ≡ r.seq
    → b ≡ r.op
    → c ≡ r.ino
    → d ≡ r.indx
    → e ≡ r.off
    → f ≡ r.slice_id
    → g ≡ r.size
    → h ≡ r.slice_off
    → i ≡ r.slice_len
    → some (record {
      seq = a;
      op = b;
      ino = c;
      indx = d;
      off = e;
      slice_id = f;
      size = g;
      slice_off = h;
      slice_len = i;
    })
      ≡ some r
same_fields r a b c d e f g h i p1 p2 p3 p4 p5 p6 p7 p8 p9 =
    rw (p1, p2, p3, p4, p5, p6, p7, p8, p9) refl

-- A record with fields in the range of their Go types is read back as it was written.
pub unmarshal_record-marshal : (r : Record) → Fits r → unmarshal_record (marshal r) ≡ some r
unfolding marshal unmarshal_record
unmarshal_record-marshal r v =
    same_fields r _ _ _ _ _ _ _ _ _ (uint64-put_uint64 r.seq (drop 8 (marshal r)) v.seq)
      (omega (arith, v.op)) (uint64-put_uint64 r.ino (drop 17 (marshal r)) v.ino)
      (uint32-put_uint32 r.indx (drop 21 (marshal r)) v.indx)
      (uint32-put_uint32 r.off (drop 25 (marshal r)) v.off)
      (uint64-put_uint64 r.slice_id (drop 33 (marshal r)) v.slice_id)
      (uint32-put_uint32 r.size (drop 37 (marshal r)) v.size)
      (uint32-put_uint32 r.slice_off (drop 41 (marshal r)) v.slice_off)
      (uint32-put_uint32 r.slice_len [] v.slice_len)

read_payload :
    (crc : List ℕ → ℕ) (p bs : List ℕ) (r : Record)
    → length p ≡ 45
    → crc p < 2 ^ 32
    → unmarshal_record p ≡ some r
    → read_frame crc (put_uint32 45 ++ put_uint32 (crc p) ++ (p ++ bs)) ≡ some (r, bs)
unfolding read_frame
read_payload crc p bs r l w u =
    let room : ltb (length (put_uint32 45 ++ put_uint32 (crc p) ++ (p ++ bs))) 8 ≡ false =
      ground arith in
    let full : ltb (length (p ++ bs)) 45 ≡ false = ground (arith, length-append p bs, l) in
    let sum : (crc p == uint32 (put_uint32 (crc p) ++ (p ++ bs))) ≡ true =
      ground (arith, uint32-put_uint32 (crc p) (p ++ bs) w) in
    rw (room, full, take-append 45 p bs l, sum, u)
      (ap (λ rest. some (r, rest)) (drop-append 45 p bs l))

-- A frame at the front of the rest of a file is read whole, and no more.
pub read_frame-frame :
    (crc : List ℕ → ℕ) (r : Record) (bs : List ℕ)
    → ((p : List ℕ) → crc p < 2 ^ 32)
    → Fits r
    → read_frame crc (frame crc r ++ bs) ≡ some (r, bs)
unfolding frame marshal
read_frame-frame crc r bs w v =
    read_payload crc (marshal r) bs r (length-marshal r) (w (marshal r))
      (unmarshal_record-marshal r v)

pub length-frame : (crc : List ℕ → ℕ) (r : Record) → length (frame crc r) ≡ 53
unfolding frame marshal
length-frame crc r = refl

-- Fewer bytes than a frame has are no frame.
pub read_frame-short : (crc : List ℕ → ℕ) (bs : List ℕ) → length bs < 53 → read_frame crc bs ≡ none
unfolding read_frame
read_frame-short crc bs h = ground (arith, h, length-drop 8 bs)
