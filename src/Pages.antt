-- ===== src/Pages.antt =====
-- Listings in pages, of src/common/dto/pagination-query.dto.ts and of the services that list.
use conference_contact.Prelude.{
  ℕ, zero, suc, ap, map, refl, ◌∷◌, ◌∙◌, ◌+◌, ◌-◌, ◌*◌, ◌≤◌, ◌≡◌, List, [], ◌++◌, length, take,
  drop, take-append-drop, take_all, arith,
}

-- `Page<T>`
pub record Page {ℓ} (A : Type ℓ) : Type ℓ where
  pub data_rows : List A
  pub page : ℕ
  pub page_size : ℕ
  pub total : ℕ

-- `PaginationQueryDto`, validated
pub record PageQuery : Type 0 where
  pub page : ℕ
  pub page_size : ℕ

module _ {ℓ} {A : Type ℓ} where
  -- `skip: (query.page - 1) * query.pageSize, take: query.pageSize`
  abbrev pub rows_of_page : PageQuery → List A → List A
  rows_of_page q rows = take q.page_size (drop ((q.page - 1) * q.page_size) rows)

  abbrev pub page_of : PageQuery → List A → Page A
  page_of q rows = record {
    data_rows = rows_of_page q rows;
    page = q.page;
    page_size = q.page_size;
    total = length rows;
  }

-- The pages from 1 to `n` of a listing, one after the other.
abbrev pub pages {ℓ} : {A : Type ℓ} → (PageQuery → Page A) → ℕ → ℕ → List A
pages listing size zero = []
pages listing size (suc n) =
    pages listing size n ++ (listing (record { page = suc n; page_size = size })).data_rows

module _ {ℓ} {A : Type ℓ} (listing : PageQuery → Page A) (rows : List A)
    (shows : (q : PageQuery) → (listing q).data_rows ≡ rows_of_page q rows) where
  pages-take : (size n : ℕ) → pages listing size n ≡ take (n * size) rows
  pages-take size zero = ap (λ k. take k rows) none_yet
    where
      none_yet : 0 ≡ 0 * size
      none_yet = omega arith
  pages-take size (suc n) =
      ap (λ ys. pages listing size n ++ ys) (shows (record { page = suc n; page_size = size }))
      ∙ ap (λ ys. ys ++ rows_of_page (record { page = suc n; page_size = size }) rows)
          (pages-take size n)
      ∙ ap (λ k. take (n * size) rows ++ take size (drop (k * size) rows)) before
      ∙ take-append-drop (n * size) size rows
      ∙ ap (λ k. take k rows) one_more
    where
      before : suc n - 1 ≡ n
      before = omega arith

      one_more : n * size + size ≡ suc n * size
      one_more = omega arith

  -- Pages enough for a listing show each of its rows once, in their order.
  pub pages_all : (size n : ℕ) → length rows ≤ n * size → pages listing size n ≡ rows
  pages_all size n enough = pages-take size n ∙ take_all (n * size) rows enough

module _ {A B : Type 0} (view : A → B) where
  map-append : (xs ys : List A) → map view (xs ++ ys) ≡ map view xs ++ map view ys
  map-append [] ys = refl
  map-append (x ∷ xs) ys = ap (λ zs. view x ∷ zs) (map-append xs ys)

  map-take : (n : ℕ) (xs : List A) → map view (take n xs) ≡ take n (map view xs)
  map-take zero xs = refl
  map-take (suc n) [] = refl
  map-take (suc n) (x ∷ xs) = ap (λ zs. view x ∷ zs) (map-take n xs)

  map-drop : (n : ℕ) (xs : List A) → map view (drop n xs) ≡ drop n (map view xs)
  map-drop zero xs = refl
  map-drop (suc n) [] = refl
  map-drop (suc n) (x ∷ xs) = map-drop n xs

  pub map-rows_of_page :
      (q : PageQuery) (xs : List A) → map view (rows_of_page q xs) ≡ rows_of_page q (map view xs)
  map-rows_of_page q xs =
      map-take q.page_size (drop ((q.page - 1) * q.page_size) xs)
      ∙ ap (take q.page_size) (map-drop ((q.page - 1) * q.page_size) xs)

  -- A listing of which one looks at a view of the rows.
  abbrev viewed : (PageQuery → Page A) → PageQuery → Page B
  viewed listing q = record {
    data_rows = map view (listing q).data_rows;
    page = (listing q).page;
    page_size = (listing q).page_size;
    total = (listing q).total;
  }

  map-pages :
      (listing : PageQuery → Page A) (size n : ℕ)
      → map view (pages listing size n) ≡ pages (viewed listing) size n
  map-pages listing size zero = refl
  map-pages listing size (suc n) =
      map-append (pages listing size n)
        (listing (record { page = suc n; page_size = size })).data_rows
      ∙ ap (λ zs. zs ++ map view (listing (record { page = suc n; page_size = size })).data_rows)
          (map-pages listing size n)

  -- Pages enough for a listing of which each page shows the same view of its rows.
  pub views_all :
      (listing : PageQuery → Page A) (rows : List B)
      → ((q : PageQuery) → map view (listing q).data_rows ≡ rows_of_page q rows)
      → (size n : ℕ) → length rows ≤ n * size
      → map view (pages listing size n) ≡ rows
  views_all listing rows shows size n enough =
      map-pages listing size n ∙ pages_all (viewed listing) rows shows size n enough
