-- ===== src/Image/Source/Tests.antt =====
-- frontend/src/image/source.ts on a picture of 2 by 3 that only decodes without options.
use portrait_booth.Base.{
  ℕ, ◌≡◌, refl, Bool, true, false, some, none, List, [], ◌∷◌, if◌then◌else◌, done,
}
use portrait_booth.Base.Int.{ℤ, pos, ◌*ℤ◌}
use portrait_booth.Number.Whole.{whole_numbers}
use portrait_booth.Image.Exif.{Rect}
use portrait_booth.Image.Header.{jpeg}
use portrait_booth.Image.Source.{
  SourceImageDeps, SourceImage, Handles, SourceResult, loaded, failed, decode_failed,
  dimension_too_large, default_source_limits, load_source_image,
}
use portrait_booth.Image.Source.Laws.{
  IsAccounted, IsWithin, load_source_image-IsAccounted, load_source_image-IsWithin,
}

abbrev tiny : List ℕ
tiny = 0xff ∷ 0xd8 ∷ 0xff ∷ 0xc0 ∷ 0 ∷ 8 ∷ 8 ∷ 0 ∷ 3 ∷ 0 ∷ 2 ∷ 0 ∷ 0 ∷ []

abbrev size : Rect ℤ
size = record { width = pos 2; height = pos 3 }

abbrev browser : Bool → SourceImageDeps ℤ
browser context = record {
  decode = λ option file. if option then none else some size;
  has_context = λ s. context;
  copy = λ drawn. true;
}

abbrev start : Handles
start = record { next = 4; made = []; released = [] }

abbrev photo : SourceImage ℤ
photo = record {
  file = tiny;
  format = jpeg;
  orientation = 1;
  raw_width = pos 2;
  raw_height = pos 3;
  size = size;
  bitmap = 5;
  preview_url = 6;
}

abbrev answer : SourceResult ℤ × Handles
answer = (loaded photo, record { next = 7; made = 6 ∷ (5 ∷ (4 ∷ [])); released = 4 ∷ [] })

read : load_source_image (browser true) 13 tiny default_source_limits start ≡ done answer
unfolding load_source_image default_source_limits ◌*ℤ◌
read = refl

load_source_image-IsAccounted_example : IsAccounted (browser true) 4 answer
load_source_image-IsAccounted_example =
    load_source_image-IsAccounted (browser true) 13 tiny default_source_limits start answer
      (λ s. refl) read

load_source_image-IsWithin_example :
    IsWithin (browser true) 13 tiny default_source_limits (loaded photo)
load_source_image-IsWithin_example =
    load_source_image-IsWithin (browser true) 13 tiny default_source_limits start answer read

-- Without a context for the canvas the bitmap of the file is not closed.
bitmap_left :
    load_source_image (browser false) 13 tiny default_source_limits start
    ≡ done (failed decode_failed, record { next = 5; made = 4 ∷ []; released = [] })
unfolding load_source_image default_source_limits ◌*ℤ◌
bitmap_left = refl

low :
    load_source_image
      (browser true)
      13
      tiny
      (record default_source_limits { max_edge_px = pos 2 })
      start
    ≡ done (failed dimension_too_large, start)
unfolding load_source_image default_source_limits ◌*ℤ◌
low = refl
