-- ===== src/Fs/File/Use.antt =====
-- The calls on a number that names no descriptor.
use cos.Prelude.{ℕ, ◌≡◌, ◌||◌, none, [], ◌==◌, same_branches, neg, eio, einvarg, ℤ}
use cos.Fs.File.{Filesystem, Files, file_get_descriptor, fread, fseek, fstat, fclose, below_one}

module _ {S : Type 0} (driver : ℕ → Filesystem S) (primary : ℕ) (f : Files S) (fd : ℤ)
    (size nmemb offset whence : ℕ) where
  -- On a number that names no descriptor, each call fails, reaches no filesystem and changes
  -- nothing: `fread` with EINVARG and the others with EIO.
  pub calls-refuse :
      file_get_descriptor f.file_descriptors fd ≡ none
      → (fread driver primary f size nmemb fd ≡ ((neg einvarg, []), f))
        × (fseek driver primary f fd offset whence ≡ (neg eio, f))
        × (fstat driver primary f fd ≡ ((neg eio, none), f))
        × (fclose driver primary f fd ≡ (neg eio, f))
  unfolding fread fseek fstat fclose
  calls-refuse e = (
    rw (e, fread) (same_branches (size == 0 || nmemb == 0 || below_one fd) ((neg einvarg, []), f)),
    rw (e, fseek),
    rw (e, fstat),
    rw (e, fclose),
  )
