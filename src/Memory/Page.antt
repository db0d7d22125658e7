-- ===== src/Memory/Page.antt =====
-- The page arithmetic of memory/paging/paging.c, on 32-bit words.
use cos.Prelude.{ℕ, ◌+◌, ◌-◌, ◌%◌, ◌^◌, ◌≤◌, ◌<◌, ◌≡◌, Bool, arith, ◌==◌, if◌then◌else◌}

abbrev pub page_size : ℕ
page_size = 4096

abbrev pub word : ℕ
word = 2 ^ 32

unfoldable pub paging_round_value_to_lower_page : ℕ → ℕ
paging_round_value_to_lower_page val = val - val % page_size

-- The sum wraps as a `uint32_t` does.
unfoldable pub paging_align_value_to_upper_page : ℕ → ℕ
unfolding paging_round_value_to_lower_page
paging_align_value_to_upper_page val =
    if val % page_size == 0 then val else (paging_round_value_to_lower_page val + page_size) % word

unfoldable pub paging_align_to_lower_page : ℕ → ℕ
paging_align_to_lower_page virt = virt - virt % page_size

unfoldable pub paging_is_address_aligned : ℕ → Bool
paging_is_address_aligned ptr = ptr % page_size == 0

unfoldable pub paging_align_address : ℕ → ℕ
paging_align_address ptr =
    if ptr % page_size == 0 then ptr else (ptr + page_size - ptr % page_size) % word

-- Rounding a value up gives the least multiple of the page size that is not below it, as long as
-- that multiple fits 32 bits; both ways of rounding up agree.
pub align_upper_lem :
    (val : ℕ)
    → val ≤ word - page_size
    → (val ≤ paging_align_value_to_upper_page val)
      × (paging_align_value_to_upper_page val < val + page_size)
      × (paging_align_value_to_upper_page val % page_size ≡ 0)
      × (paging_align_address val ≡ paging_align_value_to_upper_page val)
unfolding paging_align_value_to_upper_page paging_align_address
align_upper_lem val h = ground arith

-- In the last page the rounded value wraps to zero.
pub align_upper_wraps :
    (val : ℕ)
    → word - page_size < val
    → val < word
    → (paging_align_value_to_upper_page val ≡ 0) × (paging_align_address val ≡ 0)
unfolding paging_align_value_to_upper_page paging_align_address
align_upper_wraps val h k = ground arith
