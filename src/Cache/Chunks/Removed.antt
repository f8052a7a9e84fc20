-- ===== src/Cache/Chunks/Removed.antt =====
-- `remove_chunk` of lmbench3/src/cache.c leaves the list of pages as it was.
use repo_support_tools.Base.{
  ℕ, ◌+◌, ◌*◌, ◌-◌, ◌≤◌, ◌≡◌, length, refl, ap, ◌∙◌, arith, Bool-cases, inl, inr, ltb,
}
use repo_support_tools.Doubles.{Doubles}
use repo_support_tools.Cache.Pages.{exchange_ends}
use repo_support_tools.Cache.Pages.Restored.{exchange_ends_twice}
use repo_support_tools.Cache.Measure.{Machine, State, measure}
use repo_support_tools.Cache.Chunks.{with_pages, remove_chunk}

module _ (f : Doubles) (machine : Machine) where
  pub measure-pages : (size : ℕ) (s : State) → (measure machine f size s).1.pages ≡ s.pages
  unfolding measure
  measure-pages size s = refl

  -- `remove_chunk` measures the size without the chunk and puts the pages back, also where the chunk
  -- reaches into the end of the list, if the list has at least `npages` pages.
  pub remove_chunk-pages :
      (i chunk npages len : ℕ) (s : State)
      → npages ≤ length s.pages
      → (remove_chunk f machine i chunk npages len s).1.pages ≡ s.pages
  unfolding remove_chunk
  remove_chunk-pages i chunk npages len s small =
      let size = len - chunk * machine.pagesize in
      elim (Bool-cases (ltb (i + chunk) npages)) [
        | inr outside ↦ rw (outside, remove_chunk) (measure-pages size s)
        | inl inside ↦
            let removed = exchange_ends i npages chunk 0 s.pages in
            rw (inside, remove_chunk)
              (ap (exchange_ends i npages chunk 0) (measure-pages size (with_pages s removed))
                ∙ exchange_ends_twice i npages chunk 0 s.pages (ground arith) small)
      ]
