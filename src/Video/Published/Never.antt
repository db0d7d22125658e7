-- ===== src/Video/Published/Never.antt =====
-- Which calls of `video_rectangle_publish` succeed.
use cos.Prelude.{
  ℕ, true, false, if◌then◌else◌, Option, none, some, List, Result, err, Run, done, ◌>>=◌, eistkn,
}
use cos.Strings.{strncpy}
use cos.Video.Rectangle.{Rectangle}
use cos.Video.Published.{Published, name_size, video_rectangle_publish_insert, mark_published}

-- After the look for the name.
abbrev published_from :
    Published → (name : List ℕ) → ℕ → Run (Option ℕ) → Run (Result (Unit {0}) × Published)
published_from s name p found = found >>= λ (o : Option ℕ).
    if elim o [ none ↦ false | some q ↦ true ]
    then done (err eistkn, s)
    else strncpy (s.rectangle p).name name name_size >>= λ copied.
        done (video_rectangle_publish_insert (mark_published s p copied) p)
