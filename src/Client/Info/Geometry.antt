-- ===== src/Client/Info/Geometry.antt =====
-- cmd/agent/sysinfo_linux.go: parseXrandrRes reads a geometry back.
use rmm.Base.{
  ℕ, suc, ◌+◌, ◌-◌, ◌<◌, ◌≡◌, refl, sym, ap, ◌∙◌, [], ◌∷◌, ◌++◌, Bytes, codes, length, take, drop,
  some, arith, length-append, take-append_length, append_assoc,
}
use rmm.Base.Int.{ℤ, pos}
use rmm.Go.Strings.{index}
use rmm.Go.Strings.Laws.{Without}
use rmm.Go.Strings.Index.{index_Without, Without-append}
use rmm.Go.Strconv.{format_uint, atoi, sign_bit}
use rmm.Go.Strconv.Laws.{atoi-format_uint, format_uint-Without, format_uint-IsNumeral, IsNumeral}
use rmm.Client.Info.Linux.{parse_xrandr_res}

IsNumeral-length : (s : Bytes) → IsNumeral s → 0 < length s
IsNumeral-length [] w = absurd w
IsNumeral-length (c ∷ s) w = omega arith

drop-suc : (s : Bytes) (c : ℕ) (rest : Bytes) → drop (suc (length s)) (s ++ (c ∷ rest)) ≡ rest
drop-suc [] c rest = refl
drop-suc (b ∷ s) c rest = drop-suc s c rest

drop_next : (s : Bytes) (c : ℕ) (rest : Bytes) → drop (length s + 1) (s ++ (c ∷ rest)) ≡ rest
drop_next s c rest = let e : length s + 1 ≡ suc (length s) = omega arith in rw e (drop-suc s c rest)

parse_xrandr_res_lem :
    (s : Bytes) (x p : ℕ) (w h : ℤ)
    → index s (codes "x") ≡ some x
    → index s (codes "+") ≡ some p
    → 0 < x
    → x < p
    → atoi (take x s) ≡ some w
    → atoi (take (p - (x + 1)) (drop (x + 1) s)) ≡ some h
    → parse_xrandr_res s ≡ some (w, h)
unfolding parse_xrandr_res
parse_xrandr_res_lem s x p w h ex ep hx hp ew eh = ground (arith, ex, ep, ew, eh)

module _ (ws hs rest : Bytes) where
  abbrev geometry : Bytes
  geometry = ws ++ (b'x' ∷ (hs ++ (b'+' ∷ rest)))

  geometry_assoc : geometry ≡ (ws ++ (b'x' ∷ hs)) ++ (b'+' ∷ rest)
  geometry_assoc = sym (append_assoc ws (b'x' ∷ hs) (b'+' ∷ rest))

  plus_index :
      Without b'+' ws
      → Without b'+' hs
      → index geometry (codes "+") ≡ some (length ws + suc (length hs))
  plus_index w v = rw geometry_assoc (
      index_Without b'+' (ws ++ (b'x' ∷ hs)) rest (Without-append b'+' ws (b'x' ∷ hs) w (refl, v))
      ∙ ap some (length-append ws (b'x' ∷ hs)))

  height_part :
      take (length ws + suc (length hs) - (length ws + 1)) (drop (length ws + 1) geometry) ≡ hs
  height_part =
      let e : length ws + suc (length hs) - (length ws + 1) ≡ length hs = omega arith in
      let f : drop (length ws + 1) geometry ≡ hs ++ (b'+' ∷ rest) =
        drop_next ws b'x' (hs ++ (b'+' ∷ rest)) in
      rw (e, f) (take-append_length hs (b'+' ∷ rest))

-- A geometry WxH+... with W and H below 2^63 is read as W and H, whatever follows the plus sign.
pub parse_xrandr_res-format_uint :
    (w h : ℕ) (rest : Bytes)
    → w < sign_bit
    → h < sign_bit
    → parse_xrandr_res (format_uint w ++ (b'x' ∷ (format_uint h ++ (b'+' ∷ rest))))
      ≡ some (pos w, pos h)
parse_xrandr_res-format_uint w h rest bw bh =
    let ws = format_uint w in
    let hs = format_uint h in
    let tail = hs ++ (b'+' ∷ rest) in
    parse_xrandr_res_lem (ws ++ (b'x' ∷ tail)) (length ws) (length ws + suc (length hs)) (pos w)
      (pos h) (index_Without b'x' ws tail (format_uint-Without b'x' w refl))
      (plus_index ws hs rest (format_uint-Without b'+' w refl) (format_uint-Without b'+' h refl))
      (IsNumeral-length ws (format_uint-IsNumeral w)) (omega arith)
      (ap atoi (take-append_length ws (b'x' ∷ tail)) ∙ atoi-format_uint w bw)
      (ap atoi (height_part ws hs rest) ∙ atoi-format_uint h bh)
