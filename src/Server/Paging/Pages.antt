-- ===== src/Server/Paging/Pages.antt =====
-- A listing read page by page, through the tokens of internal/server/paging.go.
use chronos_engine.Prelude.{
  ℕ, zero, suc, ◌+◌, ◌≤◌, ◌<◌, ℤ, pos, pos_part, ltb, ltb_ℤ, leb_ℤ, String, Option, none, some,
  List, [], ◌∷◌, ◌++◌, map, map-append, length, Bool, true, false, ◌&&◌, ◌||◌, ◌==◌, nat_eq,
  string_eq, if◌then◌else◌, take, drop, select, ◌≡◌, refl, sym, ap, ◌∙◌, ◌≤ℤ◌, arith, Bool-cases,
  inl, inr,
}
use chronos_engine.Messages.{WorkflowStatus, WorkflowExecution}
use chronos_engine.Store.Tables.{Execution, Db}
use mathlib.Core.List.{Permᴰ}
use chronos_engine.Store.Monad.{order_by}
use chronos_engine.Store.Reorder.{goes_first, AreApart, query-perm}
use chronos_engine.Store.Workflows.{
  Scan, scan_execution, list_workflows, page_limit, matches_filter,
}
use chronos_engine.Server.{Reply, replies, rejects, to_proto_execution}
use chronos_engine.Server.Paging.{
  TokenText, encode_offset, valid_offset, read_offset, decode_offset, ListResponse, next_token,
  list_response, serve_list_workflows,
}

-- What the tokens rely on: a number's text is read back, through an encoding that is not empty.
pub record IsText (text : TokenText) : Type 0 where
  pub decodes :
      (n : ℕ)
      → text.decode_string (text.encode_to_string (text.itoa (pos n))) ≡ some (text.itoa (pos n))
  pub reads : (n : ℕ) → text.atoi (text.itoa (pos n)) ≡ some (pos n)
  pub is_token : (n : ℕ) → (text.encode_to_string (text.itoa (pos n)) == "") ≡ false

decode_offset-encode_offset :
    (text : TokenText)
    → IsText text
    → (n : ℕ) → decode_offset text (encode_offset text (pos n)) ≡ pos n
unfolding decode_offset encode_offset
decode_offset-encode_offset text v n =
    ap
      (λ b.
        if b
        then pos 0
        else read_offset text (text.decode_string (text.encode_to_string (text.itoa (pos n)))))
      (v.is_token n)
    ∙ ap (read_offset text) (v.decodes n)
    ∙ ap valid_offset (v.reads n)
    ∙ ground arith

module _ {A : Type 0} where
  take-drop : (n : ℕ) (xs : List A) → take n xs ++ drop n xs ≡ xs
  take-drop zero xs = refl
  take-drop (suc n) [] = refl
  take-drop (suc n) (x ∷ xs) = ap (λ l. x ∷ l) (take-drop n xs)

  drop-nil : (n : ℕ) → drop {A = A} n [] ≡ []
  drop-nil zero = refl
  drop-nil (suc n) = refl

  drop-add : (m k n : ℕ) (xs : List A) → k ≡ m + n → drop k xs ≡ drop n (drop m xs)
  drop-add zero k n xs e = let same : k ≡ n = omega arith in ap (λ i. drop i xs) same
  drop-add (suc m) zero n xs e = absurd (omega arith)
  drop-add (suc m) (suc k) n [] e = sym (drop-nil n)
  drop-add (suc m) (suc k) n (x ∷ xs) e = drop-add m k n xs (omega arith)

  drop-length-take : (n : ℕ) (xs : List A) → drop (length (take n xs)) xs ≡ drop n xs
  drop-length-take zero xs = refl
  drop-length-take (suc n) [] = refl
  drop-length-take (suc n) (x ∷ xs) = drop-length-take n xs

  -- A page that is not full is the last.
  take_short : (n : ℕ) (xs : List A) → (length (take n xs) == n) ≡ false → take n xs ≡ xs
  take_short zero xs h = cc
  take_short (suc n) [] h = refl
  take_short (suc n) (x ∷ xs) h = ap (λ l. x ∷ l) (take_short n xs (ground arith))

  take_empty : (n : ℕ) (xs : List A) → 1 ≤ n → length (take n xs) ≡ 0 → xs ≡ []
  take_empty zero xs h e = ground arith
  take_empty (suc n) [] h e = refl
  take_empty (suc n) (x ∷ xs) h e = ground arith

  length-take-drop : (n : ℕ) (xs : List A) → length (take n xs) + length (drop n xs) ≡ length xs
  length-take-drop zero xs = omega arith
  length-take-drop (suc n) [] = omega arith
  length-take-drop (suc n) (x ∷ xs) = omega (arith, length-take-drop n xs)

length-map : {A B : Type 0} (f : A → B) (xs : List A) → length (map f xs) ≡ length xs
length-map f [] = refl
length-map f (x ∷ xs) = ap (λ n. suc n) (length-map f xs)

-- What a reader makes of a page: the executions, and where the token leads on, the rest.
abbrev append_page :
    List WorkflowExecution
    → Bool
    → Option (List WorkflowExecution)
    → Option (List WorkflowExecution)
append_page page true rest = some page
append_page page false none = none
append_page page false (some rest) = some (page ++ rest)

abbrev follow :
    Reply ListResponse
    → (String → Option (List WorkflowExecution))
    → Option (List WorkflowExecution)
follow (rejects c) next = none
follow (replies page) next =
    append_page page.executions (page.next_page_token == "") (next page.next_page_token)

-- A reader that follows the tokens, for at most `fuel` pages. Each page is a query with a scan of its own.
unfoldable pub read_pages :
    TokenText → (ℕ → Scan) → WorkflowStatus → ℤ → ℕ → String → Db → Option (List WorkflowExecution)
read_pages text scans status_filter page_size zero token db = none
read_pages text scans status_filter page_size (suc fuel) token db =
    follow (serve_list_workflows text (scans fuel) status_filter page_size token db)
      λ next. read_pages text scans status_filter page_size fuel next db

-- The executions that a filter selects, the youngest first.
abbrev pub rows_of : WorkflowStatus → Db → List Execution
rows_of status_filter db =
    order_by (λ a b. leb_ℤ b.start_time a.start_time)
      (select (matches_filter status_filter) db.executions)

abbrev pub listing : List Execution → List WorkflowExecution
listing rows = map to_proto_execution (map scan_execution rows)

abbrev goes_on : ℤ → ℕ → Bool
goes_on page_size n = ltb 0 n && (leb_ℤ page_size (pos 0) || n == pos_part page_size)

module _ (text : TokenText) (v : IsText text) (status_filter : WorkflowStatus) (page_size : ℤ)
    (h : page_size ≤ℤ pos 200) (db : Db) (scans : ℕ → Scan)
    (d : (n : ℕ) (rows : List Execution) → Permᴰ (scans n rows) rows)
    (apart : AreApart (select (matches_filter status_filter) db.executions)) where
  last_page :
      (ys : List Execution)
      → goes_on page_size (length (take (page_limit page_size) ys)) ≡ false
      → take (page_limit page_size) ys ≡ ys
  last_page ys e =
      elim (Bool-cases (length (take (page_limit page_size) ys) == page_limit page_size)) [
        | inr short ↦ take_short (page_limit page_size) ys short
        | inl full ↦ absurd (ground (arith, h, e, full))
      ]

  listed :
      (n o : ℕ)
      → list_workflows (scans n) status_filter page_size (pos o) db
        ≡ some
            (map scan_execution (take (page_limit page_size) (drop o (rows_of status_filter db))))
  unfolding list_workflows
  listed n o =
      ap {A = Bool}
        (λ b.
          if b
          then none
          else some (
              map scan_execution (
                take (page_limit page_size) (
                  drop o (
                    order_by goes_first
                      (select (matches_filter status_filter) (scans n db.executions)))))))
        (nonnegative o)
      ∙ ap (λ rows. some (map scan_execution (take (page_limit page_size) (drop o rows))))
          (query-perm (matches_filter status_filter) (d n db.executions) apart)
    where
      nonnegative : (o : ℕ) → ltb_ℤ (pos o) (pos 0) ≡ false
      nonnegative o = ground arith

  -- The reply with the page `t` at the offset `o`.
  abbrev reply_of : ℕ → List Execution → ℕ → Reply ListResponse
  reply_of o t n = replies (record {
    executions = listing t;
    next_page_token = if goes_on page_size n then encode_offset text (pos (o + n)) else "";
  })

  response :
      (o : ℕ) (t : List Execution)
      → list_response text page_size (pos o) (some (map scan_execution t)) ≡ reply_of o t (length t)
  unfolding next_token
  response o t = ap {A = ℕ} (reply_of o t) (length-map scan_execution t)

  page :
      (n : ℕ) (token : String) (o : ℕ)
      → decode_offset text token ≡ pos o
      → let t = take (page_limit page_size) (drop o (rows_of status_filter db)) in
        serve_list_workflows text (scans n) status_filter page_size token db
        ≡ reply_of o t (length t)
  unfolding serve_list_workflows
  page n token o e =
      ap
        (λ k.
          list_response text page_size k (list_workflows (scans n) status_filter page_size k db))
        e
      ∙ ap (list_response text page_size (pos o)) (listed n o)
      ∙ response o (take (page_limit page_size) (drop o (rows_of status_filter db)))

  -- The pages from the offset `o` on.
  pages :
      (fuel : ℕ) (token : String) (o : ℕ)
      → decode_offset text token ≡ pos o
      → length (drop o (rows_of status_filter db)) < fuel
      → read_pages text scans status_filter page_size fuel token db
        ≡ some (listing (drop o (rows_of status_filter db)))
  unfolding read_pages encode_offset
  pages zero token o e f = absurd (omega (arith, f))
  pages (suc fuel) token o e f =
      ap (λ r. follow r (λ next. read_pages text scans status_filter page_size fuel next db))
        (page fuel token o e)
      ∙ elim (Bool-cases (goes_on page_size (length t))) [
        | inr last ↦
            ap {A = Bool}
              (λ b.
                follow
                  (replies (record {
                    executions = listing t;
                    next_page_token = if b then encode_offset text (pos (o + length t)) else "";
                  }))
                  (λ next. read_pages text scans status_filter page_size fuel next db))
              last
            ∙ ap (λ l. some (listing l)) (last_page ys last)
        | inl more ↦
            ap {A = Bool}
              (λ b.
                follow
                  (replies (record {
                    executions = listing t;
                    next_page_token = if b then encode_offset text (pos (o + length t)) else "";
                  }))
                  (λ next. read_pages text scans status_filter page_size fuel next db))
              more
            ∙ ap
                (λ b. append_page (listing t) b (
                  read_pages text scans status_filter page_size fuel
                    (encode_offset text (pos (o + length t))) db))
                (v.is_token (o + length t))
            ∙ ap (append_page (listing t) false) (
                pages fuel (encode_offset text (pos (o + length t))) (o + length t)
                  (decode_offset-encode_offset text v (o + length t))
                  (omega (
                    arith,
                    f,
                    shorter more,
                    length-take-drop (page_limit page_size) ys,
                    ap length rest,
                  )))
            ∙ ap some (
                sym (joined t (drop (o + length t) rows))
                ∙ ap listing (ap (λ l. t ++ l) rest ∙ take-drop (page_limit page_size) ys))
      ]
    where
      rows : List Execution
      rows = rows_of status_filter db

      ys : List Execution
      ys = drop o rows

      t : List Execution
      t = take (page_limit page_size) ys

      rest : drop (o + length t) rows ≡ drop (page_limit page_size) ys
      rest =
          drop-add o (o + length t) (length t) rows refl
          ∙ drop-length-take (page_limit page_size) ys

      shorter : goes_on page_size (length t) ≡ true → 1 ≤ length t
      shorter more = ground (arith, more)

      joined : (a b : List Execution) → listing (a ++ b) ≡ listing a ++ listing b
      joined a b =
          ap (map to_proto_execution) (map-append scan_execution a b)
          ∙ map-append to_proto_execution (map scan_execution a) (map scan_execution b)

-- Page by page, a listing is complete. For tokens whose text reads back, and a page size of at most 200 (also 0 or
-- less, the default), where no two matching executions have the same start time: a reader that starts without a token and follows each NextPageToken of ListWorkflows gets,
-- on a database that does not change meanwhile, after at most one page more than there are matching executions,
-- every execution that the status filter selects, once each and youngest first, in whichever order the query of
-- each page meets the rows of the table.
pub pages_complete :
    (text : TokenText) (scans : ℕ → Scan) (status_filter : WorkflowStatus) (page_size : ℤ) (db : Db)
    → IsText text
    → page_size ≤ℤ pos 200
    → ((n : ℕ) (rows : List Execution) → Permᴰ (scans n rows) rows)
    → AreApart (select (matches_filter status_filter) db.executions)
    → read_pages text scans status_filter page_size (suc (length (rows_of status_filter db))) "" db
      ≡ some (listing (rows_of status_filter db))
unfolding decode_offset
pages_complete text scans status_filter page_size db v h d apart =
    pages text v status_filter page_size h db scans d apart
      (suc (length (rows_of status_filter db))) "" 0 refl (omega arith)
