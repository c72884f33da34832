-- ===== src/Client/BitbucketServer/Paging.antt =====
-- The loops over the pages of a listing: they ask for the page that starts at a number, and go on
-- with the number that the reply gives as long as it says that there is another page.
use froggit_go.Base.{
  ℕ, zero, suc, ◌+◌, ◌-◌, ◌<◌, ◌≤◌, ℤ, pos, String, ◌≡◌, refl, sym, ap, ◌∙◌, true, false, List, ◌∷◌,
  Result, ok, panic, arith, ltb, if◌then◌else◌,
}
use froggit_go.Calls.{◌>>=◌, pure, lift, send, >>=-ok, >>=-lift}
use froggit_go.Client.BitbucketServer.Api.{Call, Page, Answer, Rest}

module _ {A B : Type 0} (answer : Answer (Page A)) (call : ℤ → Call)
    (add : B → List A → Result B) where
  -- The loop from a page on, with so many rounds of fuel: `add` is what is done with a page. The last
  -- page is given back beside the results.
  unfoldable pub page_loop : ℕ → ℤ → B → Rest (B × Page A)
  page_loop zero start results = lift (panic "out of fuel")
  page_loop (suc fuel) start results = do
    page ← send answer (call start)
    items ← lift page.items
    results ← lift (add results items)
    (if page.has_next_page
        then page_loop fuel page.next_page_start results
        else pure (results, page))

-- A listing of so many pages, from page 0 on. A page starts at any number.
pub record Listing (A : Type 0) : Type 0 where
  pub pages : ℕ → List A
  pub start : ℕ → ℤ
  pub total : ℕ
  pub username : String

abbrev pub page_at : {A : Type 0} → Listing A → ℕ → Page A
page_at l k = record {
  items = ok (l.pages k);
  has_next_page = ltb (suc k) l.total;
  next_page_start = l.start (suc k);
  username = l.username;
}

-- The listing has a page, the first page starts at 0, and the server keeps to it.
abbrev pub IsServed : {A : Type 0} → Answer (Page A) → (ℤ → Call) → Listing A → Type 0
IsServed answer call l =
    (0 < l.total)
    × (l.start 0 ≡ pos 0)
    × ((log : List Call) (k : ℕ) → answer log (call (l.start k)) ≡ ok (page_at l k))

-- The log after so many pages from `k` on were asked for.
abbrev pub asked : (ℤ → Call) → (ℕ → ℤ) → ℕ → ℕ → List Call → List Call
asked call start k zero log = log
asked call start k (suc n) log = asked call start (suc k) n (call (start k) ∷ log)

-- What so many pages from `k` on add to the results.
abbrev pub added : {A B : Type 0} → (B → List A → B) → (ℕ → List A) → ℕ → ℕ → B → B
added add pages k zero r = r
added add pages k (suc n) r = added add pages (suc k) n (add r (pages k))

module _ {A B : Type 0} (answer : Answer (Page A)) (call : ℤ → Call) (add : B → List A → Result B)
    (plain : B → List A → B) (l : Listing A)
    (adds : (r : B) (k : ℕ) → add r (l.pages k) ≡ ok (plain r (l.pages k)))
    (stable : (log : List Call) (k : ℕ) → answer log (call (l.start k)) ≡ ok (page_at l k)) where
  page_round :
      (fuel k : ℕ) (r : B) (log : List Call)
      → page_loop answer call add (suc fuel) (l.start k) r log
        ≡ (if ltb (suc k) l.total
              then page_loop answer call add fuel (l.start (suc k)) (plain r (l.pages k))
              else pure (plain r (l.pages k), page_at l k))
            (call (l.start k) ∷ log)
  unfolding page_loop send
  page_round fuel k r log =
      >>=-ok _ _ log (ap (λ x. (x, call (l.start k) ∷ log)) (stable log k))
      ∙ >>=-lift _ _ (call (l.start k) ∷ log) refl
      ∙ >>=-lift _ _ (call (l.start k) ∷ log) (adds r k)

  page_loop_adds :
      (n fuel k : ℕ) (r : B) (log : List Call)
      → n < fuel
      → suc (k + n) ≡ l.total
      → page_loop answer call add fuel (l.start k) r log ≡ (
        ok (added plain l.pages k (suc n) r, page_at l (k + n)),
        asked call l.start k (suc n) log,
      )
  unfolding pure
  page_loop_adds n zero k r log f e = absurd (omega arith)
  page_loop_adds zero (suc fuel) k r log f e =
      let last : ltb (suc k) l.total ≡ false = ground arith in
      let same : k + 0 ≡ k = omega arith in
      let log' = call (l.start k) ∷ log in
      page_round fuel k r log
      ∙ ap
          (λ b.
            (if b
                then page_loop answer call add fuel (l.start (suc k)) (plain r (l.pages k))
                else pure (plain r (l.pages k), page_at l k))
              log')
          last
      ∙ ap (λ i. (ok (plain r (l.pages k), page_at l i), log')) (sym same)
  page_loop_adds (suc n) (suc fuel) k r log f e =
      let more : ltb (suc k) l.total ≡ true = ground arith in
      let same : k + suc n ≡ suc k + n = omega arith in
      let rest =
        page_loop_adds n fuel (suc k) (plain r (l.pages k)) (call (l.start k) ∷ log) (omega arith)
          (omega arith) in
      page_round fuel k r log ∙ rw (more, same) rest

-- If the server keeps to a listing, and what is done with each of its pages gives no error, then the
-- loop asks for every page once, in order, and gives what all pages add. A round of fuel for each page
-- is enough.
pub page_loop_serves :
    {A B : Type 0} (answer : Answer (Page A)) (call : ℤ → Call) (add : B → List A → Result B)
    (plain : B → List A → B) (l : Listing A) (fuel : ℕ) (r : B) (log : List Call)
    → IsServed answer call l
    → ((r : B) (k : ℕ) → add r (l.pages k) ≡ ok (plain r (l.pages k)))
    → l.total ≤ fuel
    → (last : Page A) × (page_loop answer call add fuel (pos 0) r log
        ≡ (ok (added plain l.pages 0 l.total r, last), asked call l.start 0 l.total log))
      × (last.username ≡ l.username)
page_loop_serves answer call add plain l fuel r log (some_page, first, stable) adds enough =
    let n = l.total - 1 in
    let total : suc n ≡ l.total = omega arith in
    let run =
      page_loop_adds answer call add plain l adds stable n fuel 0 r log (omega arith)
        (omega arith) in
    (
      page_at l (0 + n),
      ap (λ z. page_loop answer call add fuel z r log) (sym first)
          ∙ run
          ∙ ap
              (λ t. (ok (added plain l.pages 0 t r, page_at l (0 + n)), asked call l.start 0 t log))
              total,
      refl,
    )
