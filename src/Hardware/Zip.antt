-- ===== src/Hardware/Zip.antt =====
-- run_zip_operation of src/accelerators.cpp. zlib is the parameter `zlib`: for the room in the
-- destination, the source and the level, a call answers its code, the new length and the bytes that
-- it has written.
use ece506scheduler.Base.{
  ℕ, suc, ◌≡◌, refl, ◌≤◌, if_ind, sym, ◌∙◌, ap, ℤ, pos, negsuc, ltb_ℤ, eqb_ℤ, eq_of_parts, Bool,
  true, false, List, Option, none, some, Text, text, to_string, ◌++◌, length, if◌then◌else◌, arith,
}

pub record Zlib : Type 0 where
  pub compress2 : ℕ → List ℕ → ℤ → ℤ × ℕ × List ℕ
  pub uncompress : ℕ → List ℕ → ℤ × ℕ × List ℕ

-- A pointer that is set is `some`: what the input holds, and the room in the output. `out_actual`
-- says whether that pointer is set, and `actual` what is stored there.
pub record ZipContext : Type 0 where
  pub level : ℤ
  pub compress : Bool
  pub input : Option (List ℕ)
  pub room : Option ℕ
  pub out_actual : Bool
  pub actual : ℕ
  pub output : List ℕ
  pub ok : Bool
  pub message : Text

-- std::clamp(level, 0, 9)
unfoldable pub clamp_level : ℤ → ℤ
clamp_level level =
    if ltb_ℤ level (pos 0) then pos 0 else if ltb_ℤ (pos 9) level then pos 9 else level

-- std::to_string of an int
unfoldable pub int_text : ℤ → Text
int_text (pos k) = to_string k
int_text (negsuc k) = text "-" ++ to_string (suc k)

unfoldable pub zip_message : ZipContext → List ℕ → ℤ → ℕ → Text
zip_message ctx src ret dest_len =
    if eqb_ℤ ret (pos 0)
    then text "zip: "
      ++ (if ctx.compress then text "compressed" else text "decompressed")
      ++ text " ("
      ++ to_string (length src)
      ++ text " -> "
      ++ to_string dest_len
      ++ text ")"
    else text "zip: zlib error " ++ int_text ret

module _ (zlib : Zlib) where
  -- The call, by the mode.
  unfoldable pub call_zlib : ZipContext → List ℕ → ℕ → ℤ × ℕ × List ℕ
  call_zlib ctx src room =
      if ctx.compress
      then zlib.compress2 room src (clamp_level ctx.level)
      else zlib.uncompress room src

  unfoldable pub finish_zip : ZipContext → List ℕ → ℤ × ℕ × List ℕ → Bool × ZipContext
  finish_zip ctx src (ret, dest_len, bytes) =
      let ok = eqb_ℤ ret (pos 0) in
      (
        ok,
        record ctx {
          ok = ok;
          message = zip_message ctx src ret dest_len;
          actual = if ctx.out_actual then dest_len else ctx.actual;
          output = bytes;
        },
      )

  unfoldable pub missing_buffers : ZipContext → Bool × ZipContext
  missing_buffers ctx = (false, record ctx { ok = false; message = text "zip: buffers missing" })

  unfoldable pub run_zip_operation : ZipContext → Bool × ZipContext
  run_zip_operation ctx = elim ctx.input [
    | none ↦ missing_buffers ctx
    | some src ↦ elim ctx.room [
      | none ↦ missing_buffers ctx
      | some room ↦ finish_zip ctx src (call_zlib ctx src room)
    ]
  ]

  -- What zlib documents for the lossless part: for a level from 0 to 9, where compress2 answers Z_OK,
  -- the bytes that it wrote are decompressed to the source by any call with room for it.
  abbrev pub IsLossless : Type 0
  IsLossless =
      (room room' level len : ℕ) (src bytes : List ℕ)
      → level ≤ 9
      → zlib.compress2 room src (pos level) ≡ (pos 0, len, bytes)
      → length src ≤ room'
      → zlib.uncompress room' bytes ≡ (pos 0, length src, src)

  clamp_level-range : (level : ℤ) → (n : ℕ) × (clamp_level level ≡ pos n) × (n ≤ 9)
  unfolding clamp_level
  clamp_level-range (pos n) =
      if_ind (λ (l : ℤ). (m : ℕ) × (l ≡ pos m) × (m ≤ 9)) (ltb_ℤ (pos n) (pos 0))
        (λ _. (0, refl, omega arith))
        (λ _.
          if_ind (λ (l : ℤ). (m : ℕ) × (l ≡ pos m) × (m ≤ 9)) (ltb_ℤ (pos 9) (pos n))
            (λ _. (9, refl, omega arith)) (λ small. (n, refl, ground arith)))
  clamp_level-range (negsuc n) =
      if_ind (λ (l : ℤ). (m : ℕ) × (l ≡ pos m) × (m ≤ 9)) (ltb_ℤ (negsuc n) (pos 0))
        (λ _. (0, refl, omega arith)) (λ up. absurd (ground (arith, up)))

  -- The run of a context with both buffers.
  run_given :
      (ctx : ZipContext) (src : List ℕ) (room : ℕ)
      → ctx.input ≡ some src
      → ctx.room ≡ some room
      → run_zip_operation ctx ≡ finish_zip ctx src (call_zlib ctx src room)
  unfolding run_zip_operation
  run_given ctx src room e f =
      ap
        (λ (o : Option (List ℕ)). elim o [
          | none ↦ missing_buffers ctx
          | some src ↦ elim ctx.room [
            | none ↦ missing_buffers ctx
            | some room ↦ finish_zip ctx src (call_zlib ctx src room)
          ]
        ])
        e
      ∙ ap
          (λ (o : Option ℕ). elim o [
            | none ↦ missing_buffers ctx
            | some room ↦ finish_zip ctx src (call_zlib ctx src room)
          ])
          f

  finish_zip-ok :
      (ctx : ZipContext) (src : List ℕ) (r : ℤ × ℕ × List ℕ)
      → (finish_zip ctx src r).0 ≡ true
      → r ≡ (pos 0, r.1, (finish_zip ctx src r).1.output)
  unfolding finish_zip
  finish_zip-ok ctx src (ret, len, bytes) h =
      let zero : ret ≡ pos 0 = ground (arith, eq_of_parts ret (pos 0)) in
      ap (λ code. (code, len, bytes)) zero

  -- A run that compresses and answers true has called compress2 with a level from 0 to 9, which has
  -- answered Z_OK.
  compressed :
      (ctx : ZipContext) (src : List ℕ) (room : ℕ)
      → ctx.input ≡ some src
      → ctx.room ≡ some room
      → ctx.compress ≡ true
      → (run_zip_operation ctx).0 ≡ true
      → (level len : ℕ) × (level ≤ 9)
        × (zlib.compress2 room src (pos level) ≡ (pos 0, len, (run_zip_operation ctx).1.output))
  unfolding call_zlib
  compressed ctx src room e f mode ok =
      let (level, clamped, small) = clamp_level-range ctx.level in
      let run : run_zip_operation ctx ≡ finish_zip ctx src (zlib.compress2 room src (pos level)) =
        run_given ctx src room e f ∙ rw (mode, clamped) refl in
      let r = zlib.compress2 room src (pos level) in
      (
        level,
        r.1,
        small,
        finish_zip-ok ctx src r (ap (λ o. o.0) (sym run) ∙ ok)
            ∙ ap (λ (o : Bool × ZipContext). (pos 0, r.1, o.1.output)) (sym run),
      )

  -- Round trip: where a run that compresses `src` answers true, a run that decompresses what it has
  -- written, into a buffer with room for `src`, answers true too, marks its context as ok, leaves
  -- `src` and stores its length where that is asked for, whatever the level was.
  pub zip_roundtrip :
      (lossless : IsLossless) (ctx ctx' : ZipContext) (src : List ℕ) (room room' : ℕ)
      → ctx.input ≡ some src
      → ctx.room ≡ some room
      → ctx.compress ≡ true
      → (run_zip_operation ctx).0 ≡ true
      → ctx'.input ≡ some (run_zip_operation ctx).1.output
      → ctx'.room ≡ some room'
      → ctx'.compress ≡ false
      → length src ≤ room'
      → let (ok, back) = run_zip_operation ctx' in
        (ok ≡ true)
        × (back.ok ≡ true)
        × (back.output ≡ src)
        × (ctx'.out_actual ≡ true → back.actual ≡ length src)
  unfolding call_zlib finish_zip
  zip_roundtrip lossless ctx ctx' src room room' e f mode ok e' f' mode' enough =
      let (level, len, small, call) = compressed ctx src room e f mode ok in
      let back = lossless room room' level len src _ small call enough in
      let run : run_zip_operation ctx' ≡ finish_zip ctx' _ (pos 0, length src, src) =
        run_given ctx' _ room' e' f'
        ∙ ap (finish_zip ctx' _) (
            ap
              (λ c.
                if c
                then zlib.compress2 room' (run_zip_operation ctx).1.output (clamp_level ctx'.level)
                else zlib.uncompress room' (run_zip_operation ctx).1.output)
              mode'
            ∙ back) in
      rw run (refl, refl, refl, λ asked. rw asked refl)
