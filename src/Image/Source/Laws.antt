-- ===== src/Image/Source/Laws.antt =====
-- frontend/src/image/source.ts: what loading a photo keeps, and what it lets through.
use portrait_booth.Base.{
  ℕ, ◌+◌, ◌≡◌, refl, subst, ◌⊎◌, inl, inr, Bool, true, false, Option, none, some, List,
  if◌then◌else◌, ◌==◌, length, take, if_cases, if_both, count, Loop, out_of_fuel, done, arith,
}
use portrait_booth.Number.{Number, ◌⊗◌, number_ring}
use portrait_booth.Image.Exif.{Rect, normalized_size}
use portrait_booth.Image.Header.{ImageHeader, parse_image_header}
use portrait_booth.Image.Source.{
  SourceErrorKind, decode_failed, heif_unsupported, dimension_too_large, unsupported_format,
  file_too_large, SourceLimits, SourceImageDeps, Handles, SourceResult, loaded, failed, make,
  release, is_unsupported, header_read_bytes, dispose, of_int, has_too_many_pixels, has_long_edge,
  work_size, work_scale, finish, draw, decode_again, decode_file, check_head, on_head,
  load_source_image,
}

-- Each handle was released as often as it was made.
abbrev pub IsReleased : Handles → Type 0
IsReleased h = (s : ℕ) → count s h.made ≡ count s h.released

-- The photo, if there is one, is disposed of.
abbrev pub after {ℓ} : {R : Type ℓ} → SourceResult R × Handles → Handles
after (loaded image, h) = dispose image h
after (failed kind, h) = h

-- The handle `i` was made once more than it was released, and every other as often.
abbrev pub IsHeld : ℕ → Handles → Type 0
IsHeld i h = (s : ℕ) → count s h.made ≡ count s h.released + (if i == s then 1 else 0)

finish-IsReleased {ℓ} :
    {R : Type ℓ} (file : List ℕ) (head : ImageHeader) (orientation : ℕ) (size : Rect R)
    (copied : Bool) (h : Handles)
    → IsReleased h
    → IsReleased (after (finish file head orientation size copied h))
unfolding finish make release dispose
finish-IsReleased file head orientation size false h all s = all s
finish-IsReleased file head orientation size true h all s = omega (arith, all s)

done-injective {ℓ} : {A : Type ℓ} {a b : A} → done a ≡ done b → a ≡ b
done-injective e = cc

module _ {ℓ} {R : Type ℓ} ⦃n : Number R⦄ (deps : SourceImageDeps R) where
  -- The format is supported, and the size that the header gives keeps the limits.
  abbrev IsAdmitted : SourceLimits R → ImageHeader → Type 0
  IsAdmitted limits head =
      (is_unsupported head.format ≡ false)
      × (has_too_many_pixels limits head ≡ false)
      × (has_long_edge limits head ≡ false)

  -- The size of the bitmap that the decoder gave, and the orientation that is left to apply: with the option
  -- that of the header, and without it none.
  abbrev pub IsDecoded : List ℕ → ImageHeader → ℕ → Rect R → Type ℓ
  IsDecoded file head o raw =
      ((deps.decode true file ≡ some raw) × (o ≡ head.orientation))
      ⊎ ((deps.decode true file ≡ none) × (deps.decode false file ≡ some raw) × (o ≡ 1))

  module _ {κ} (P : SourceResult R × Handles → Type κ) (file : List ℕ) (limits : SourceLimits R)
      (h : Handles) (bad : (kind : SourceErrorKind) → P (failed kind, h)) where
    -- What is left once the size of the bitmap is known.
    abbrev Draws : ImageHeader → Type (ℓ ⊔ κ)
    Draws head =
        (o : ℕ) (raw : Rect R) → IsDecoded file head o raw → P (draw deps file limits head o raw h)

    decode_again-cases :
        (head : ImageHeader) (second : Option (Rect R))
        → deps.decode true file ≡ none
        → deps.decode false file ≡ second
        → Draws head
        → P (decode_again deps file limits head second h)
    unfolding decode_again
    decode_again-cases head none e e' good = bad decode_failed
    decode_again-cases head (some raw) e e' good = good 1 raw (inr (e, e', refl))

    decode_file-cases :
        (head : ImageHeader) (first : Option (Rect R))
        → deps.decode true file ≡ first
        → Draws head
        → P (decode_file deps file limits head first h)
    unfolding decode_file
    decode_file-cases head (some raw) e good = good head.orientation raw (inl (e, refl))
    decode_file-cases head none e good =
        decode_again-cases head (deps.decode false file) e refl good

    check_head-cases :
        (head : ImageHeader)
        → (IsAdmitted limits head → Draws head)
        → P (check_head deps file limits head h)
    unfolding check_head
    check_head-cases head good =
        if_cases P (is_unsupported head.format) _ _ (λ _. bad heif_unsupported)
          (λ a.
            if_cases P (has_too_many_pixels limits head) _ _ (λ _. bad dimension_too_large)
              (λ b.
                if_cases P (has_long_edge limits head) _ _ (λ _. bad dimension_too_large)
                  (λ c. decode_file-cases head (deps.decode true file) refl (good (a, b, c)))))

    on_head-cases :
        (read : Loop (Option ImageHeader)) (x : SourceResult R × Handles)
        → ((head : ImageHeader) → read ≡ done (some head) → IsAdmitted limits head → Draws head)
        → on_head deps file limits read h ≡ done x
        → P x
    unfolding on_head
    on_head-cases out_of_fuel x good e = cc
    on_head-cases (done none) x good e = subst P (done-injective e) (bad unsupported_format)
    on_head-cases (done (some head)) x good e =
        subst P (done-injective e) (check_head-cases head (good head refl))

    -- A load ends with an error before anything is made, or the photo is admitted and drawn.
    load_source_image-cases :
        (fuel : ℕ) (x : SourceResult R × Handles)
        → (n.lt limits.max_bytes (n.lit (length file) 0) ≡ false
            → (head : ImageHeader)
            → parse_image_header fuel (take header_read_bytes file) ≡ done (some head)
            → IsAdmitted limits head
            → Draws head)
        → load_source_image deps fuel file limits h ≡ done x
        → P x
    unfolding load_source_image
    load_source_image-cases fuel x good =
        if_cases (λ (y : Loop (SourceResult R × Handles)). y ≡ done x → P x)
          (n.lt limits.max_bytes (n.lit (length file) 0)) _ _
          (λ _ e. subst P (done-injective e) (bad file_too_large))
          (λ small.
            on_head-cases (parse_image_header fuel (take header_read_bytes file)) x (good small))

  -- Nothing is held; or, where a canvas had no context, the handle `i` is.
  abbrev pub IsAccounted : ℕ → SourceResult R × Handles → Type ℓ
  IsAccounted i x =
      IsReleased (after x)
      ⊎ (((size : Rect R) × (deps.has_context size ≡ false)) × IsHeld i (after x))

  draw-IsAccounted :
      (file : List ℕ) (limits : SourceLimits R) (head : ImageHeader) (o : ℕ) (raw : Rect R)
      (h : Handles)
      → IsReleased h
      → IsAccounted h.next (draw deps file limits head o raw h)
  unfolding draw make release
  draw-IsAccounted file limits head o raw h all =
      let whole = normalized_size raw o in
      let size = work_size (work_scale limits whole) whole in
      if_cases (IsAccounted h.next) (deps.has_context size) _ (failed decode_failed, make h)
        (λ e. inl (
          finish-IsReleased file head o size _ (release h.next (make h))
            (λ s. omega (arith, all s))))
        (λ e. inr ((size, e), λ s. omega (arith, all s)))

  -- Once a photo that was loaded is disposed of, and at once after an error, every bitmap and object URL
  -- has been released as often as it was made, if this held before; or a canvas had no context, and one
  -- bitmap is left.
  pub load_source_image-IsAccounted :
      (fuel : ℕ) (file : List ℕ) (limits : SourceLimits R) (h : Handles)
      (x : SourceResult R × Handles)
      → IsReleased h
      → load_source_image deps fuel file limits h ≡ done x
      → IsAccounted h.next x
  load_source_image-IsAccounted fuel file limits h x all =
      load_source_image-cases (IsAccounted h.next) file limits h (λ kind. inl all) fuel x
        (λ small head read fits o raw decoded. draw-IsAccounted file limits head o raw h all)

  -- The photo is of this file, and its format and its raw size are those that the header gives, which are a
  -- supported format and a size within the limits. The size of its own bitmap is the decoder's, turned by the
  -- orientation that is left to apply and scaled to the limit of the work.
  abbrev pub IsWithin : ℕ → List ℕ → SourceLimits R → SourceResult R → Type ℓ
  IsWithin fuel file limits (failed kind) = Unit
  IsWithin fuel file limits (loaded image) =
      (head : ImageHeader) × (raw : Rect R) × (image.file ≡ file)
      × (n.lt limits.max_bytes (n.lit (length file) 0) ≡ false)
      × (parse_image_header fuel (take header_read_bytes file) ≡ done (some head))
      × (image.format ≡ head.format)
      × (image.raw_width ≡ head.width)
      × (image.raw_height ≡ head.height)
      × (is_unsupported head.format ≡ false)
      × (n.lt (limits.max_megapixels ⊗ n.lit 1000000 0) (of_int head.width ⊗ of_int head.height)
          ≡ false)
      × (n.lt limits.max_edge_px (n.max (of_int head.width) (of_int head.height)) ≡ false)
      × IsDecoded file head image.orientation raw
      × (image.size
          ≡ work_size (work_scale limits (normalized_size raw image.orientation))
              (normalized_size raw image.orientation))

  finish-IsWithin :
      (fuel : ℕ) (file : List ℕ) (limits : SourceLimits R) (head : ImageHeader) (o : ℕ)
      (raw : Rect R) (copied : Bool) (h : Handles)
      → n.lt limits.max_bytes (n.lit (length file) 0) ≡ false
      → parse_image_header fuel (take header_read_bytes file) ≡ done (some head)
      → IsAdmitted limits head
      → IsDecoded file head o raw
      → IsWithin fuel file limits
          (finish file head o
            (work_size (work_scale limits (normalized_size raw o)) (normalized_size raw o))
            copied
            h).0
  unfolding finish has_too_many_pixels has_long_edge
  finish-IsWithin fuel file limits head o raw false h small read fits decoded = tt
  finish-IsWithin fuel file limits head o raw true h small read (a, b, c) decoded =
      (head, raw, refl, small, read, refl, refl, refl, a, b, c, decoded, refl)

  draw-IsWithin :
      (fuel : ℕ) (file : List ℕ) (limits : SourceLimits R) (head : ImageHeader) (o : ℕ)
      (raw : Rect R) (h : Handles)
      → n.lt limits.max_bytes (n.lit (length file) 0) ≡ false
      → parse_image_header fuel (take header_read_bytes file) ≡ done (some head)
      → IsAdmitted limits head
      → IsDecoded file head o raw
      → IsWithin fuel file limits (draw deps file limits head o raw h).0
  unfolding draw
  draw-IsWithin fuel file limits head o raw h small read fits decoded =
      let whole = normalized_size raw o in
      let size = work_size (work_scale limits whole) whole in
      if_both (λ (x : SourceResult R × Handles). IsWithin fuel file limits x.0)
        (deps.has_context size) _ (failed decode_failed, make h)
        (finish-IsWithin fuel file limits head o raw _ (release h.next (make h)) small read fits
          decoded)
        tt

  -- A photo that is loaded is of the file, which keeps the limit on the bytes, and of the format that its header
  -- gives, which is supported; the width and height of the header keep the limits on the pixels and the edges.
  -- The size of the photo comes from the bitmap that the decoder gave, with the orientation of the header, or
  -- from the second decoding where the first failed, without one; no limit of this size is stated.
  pub load_source_image-IsWithin :
      (fuel : ℕ) (file : List ℕ) (limits : SourceLimits R) (h : Handles)
      (x : SourceResult R × Handles)
      → load_source_image deps fuel file limits h ≡ done x
      → IsWithin fuel file limits x.0
  load_source_image-IsWithin fuel file limits h x =
      load_source_image-cases (λ x. IsWithin fuel file limits x.0) file limits h (λ kind. tt) fuel x
        (λ small head read fits o raw decoded.
          draw-IsWithin fuel file limits head o raw h small read fits decoded)
