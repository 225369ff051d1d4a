-- ===== src/Sstable/BlockOpen.antt =====
-- What NewReader of pkg/sstable/block/block_reader.go reads of a finished block.
use kevo.Base.{ℕ, ◌+◌, ◌-◌, ◌*◌, ◌^◌, ◌<◌, List, [], ◌∷◌, ◌++◌}
use kevo.Base.{◌≡◌, refl, sym, ap, ◌∙◌, arith, le→ltb, ==_iff, append_assoc}
use kevo.Base.{length, take, drop, slice, length-append, take-append, drop-append, drop-drop}
use kevo.Base.All.{All}
use kevo.Base.Bytes.{Bytes, put_le, get_le, get-put_32, get-put_64}
use kevo.Sstable.Block.{Written, points_part, closed, block_footer_size}
use kevo.Sstable.BlockReader.{opened, read_points, new_reader}

pub length-points_part : (ps : List ℕ) → length (points_part ps) ≡ 4 * length ps
length-points_part [] = refl
length-points_part (p ∷ ps) = omega (arith, length-points_part ps)

read_points-points_part :
    (ps : List ℕ) (tail : Bytes)
    → All (λ p. p < 2 ^ 32) ps
    → read_points (length ps) (points_part ps ++ tail) ≡ ps
unfolding read_points
read_points-points_part [] tail h = refl
read_points-points_part (p ∷ ps) tail (q, h) =
    ap (λ x. x ∷ read_points (length ps) (points_part ps ++ tail)) (get-put_32 p q)
    ∙ ap (◌∷◌ p) (read_points-points_part ps tail h)

module _ (hash : Bytes → ℕ) (w : Written) where
  abbrev pub block_body : Bytes
  block_body = w.buffer ++ (points_part w.points ++ put_le 4 (length w.points))

  abbrev sum : Bytes
  sum = put_le 8 (hash block_body)

  abbrev offset : ℕ
  offset = length w.buffer + 4 * length w.points

  from_points :
      closed hash w ≡ w.buffer ++ (points_part w.points ++ (put_le 4 (length w.points) ++ sum))
  unfolding closed
  from_points =
      append_assoc w.buffer (points_part w.points ++ put_le 4 (length w.points)) sum
      ∙ ap (λ x. w.buffer ++ x)
          (append_assoc (points_part w.points) (put_le 4 (length w.points)) sum)

  from_count :
      closed hash w ≡ (w.buffer ++ points_part w.points) ++ (put_le 4 (length w.points) ++ sum)
  from_count =
      from_points
      ∙ sym (append_assoc w.buffer (points_part w.points) (put_le 4 (length w.points) ++ sum))

  length-front : length (w.buffer ++ points_part w.points) ≡ offset
  length-front =
      omega (arith, length-append w.buffer (points_part w.points), length-points_part w.points)

  pub length-closed : length (closed hash w) ≡ length w.buffer + 4 * length w.points + 12
  length-closed =
      ap length from_count
      ∙ omega (
        arith,
        length-append (w.buffer ++ points_part w.points) (put_le 4 (length w.points) ++ sum),
        length-front,
      )

  at_offset : length (closed hash w) - block_footer_size ≡ offset
  at_offset = omega (arith, length-closed)

  behind_count : drop offset (closed hash w) ≡ put_le 4 (length w.points) ++ sum
  behind_count =
      ap (drop offset) from_count
      ∙ drop-append (w.buffer ++ points_part w.points) (put_le 4 (length w.points) ++ sum) offset
          (sym length-front)

  count_read :
      length w.points < 2 ^ 32
      → get_le (slice (closed hash w) offset (offset + 4)) ≡ length w.points
  count_read few =
      ap (λ n. get_le (take n (drop offset (closed hash w)))) four
      ∙ ap (λ b. get_le (take 4 b)) behind_count
      ∙ get-put_32 (length w.points) few
    where
      four : offset + 4 - offset ≡ 4
      four = omega arith

  sum_read :
      ((bytes : Bytes) → hash bytes < 2 ^ 64)
      → get_le (drop (offset + 4) (closed hash w)) ≡ hash block_body
  sum_read narrow =
      ap get_le (sym (drop-drop offset 4 (closed hash w)) ∙ ap (drop 4) behind_count)
      ∙ get-put_64 (hash block_body) (narrow block_body)

  body_read : take (length (closed hash w) - 8) (closed hash w) ≡ block_body
  unfolding closed
  body_read =
      take-append block_body sum (length (block_body ++ sum) - 8)
        (omega (arith, length-append block_body sum))

  points_read :
      All (λ p. p < 2 ^ 32) w.points
      → read_points (length w.points) (drop (offset - length w.points * 4) (closed hash w))
        ≡ w.points
  points_read below =
      ap (λ b. read_points (length w.points) b)
        (ap (drop (offset - length w.points * 4)) from_points
          ∙ drop-append w.buffer (points_part w.points ++ (put_le 4 (length w.points) ++ sum))
              (offset - length w.points * 4) (omega arith))
      ∙ read_points-points_part w.points (put_le 4 (length w.points) ++ sum) below

  pub new_reader-closed :
      ((bytes : Bytes) → hash bytes < 2 ^ 64)
      → All (λ p. p < 2 ^ 32) w.points
      → length w.points < 2 ^ 32
      → new_reader hash (closed hash w)
        ≡ opened (record {
          data_bytes = closed hash w;
          restart_points = w.points;
          checksum = hash block_body;
        })
  unfolding new_reader
  new_reader-closed narrow below few =
      rw
        (
          at_offset,
          count_read few,
          sum_read narrow,
          body_read,
          le→ltb block_footer_size (length (closed hash w)) (omega (arith, length-closed)),
          (==_iff (hash block_body) (hash block_body)).1 refl,
          le→ltb (length w.points * 4) offset (omega arith),
          points_read below,
        )
        refl
