-- ===== src/Dns/RoundTrip.antt =====
-- The nameservers on their way into the VM: `join` of dns.rs writes them into one environment
-- variable, and the guest's script (crates/vm-image-builder/vm-image/vm-build) turns each word of it
-- into a line of /etc/resolv.conf. `parse_resolv_conf` is the reader of such a file.
use openshell_image_builder.Base.{
  ℕ, true, false, some, List, [], ◌∷◌, ◌++◌, append_assoc, append-nil, map, ◌==◌, if◌then◌else◌,
  is_empty, All, ◌≡◌, refl, ◌≢◌, is_empty-append, All-append, All-of_none, ap, ◌∙◌, arith,
}
use openshell_image_builder.Text
use openshell_image_builder.Text.{
  Text, codes, is_whitespace, trim, trim_start, trim_end, before, strip_prefix, lines,
}
use openshell_image_builder.Text.Laws.{
  Lacks, NoBlank, lines-break, chomp-eq_self, trim-eq_self, trim_end-eq_self, before-eq_self,
}
use openshell_image_builder.Dns.Addr.{IpAddr}
use openshell_image_builder.Dns.{
  Net, join, is_comment, starts_with_whitespace, resolv_conf_line, parse_resolv_conf,
}

-- The words of a text between blanks, as the shell splits `$OPENSHELL_VM_DNS`.
abbrev pub words_from : Text → Text → List Text
words_from cur [] = if is_empty cur then [] else cur ∷ []
words_from cur (c ∷ s) = elim (c == b' ') [
  | true ↦ let rest = words_from [] s in if is_empty cur then rest else cur ∷ rest
  | false ↦ words_from (cur ++ c ∷ []) s
]

abbrev nameserver_line : Text → Text
nameserver_line ns = codes "nameserver " ++ ns ++ (10 ∷ [])

abbrev nameserver_lines : List Text → Text
nameserver_lines [] = []
nameserver_lines (ns ∷ rest) = codes "nameserver " ++ (ns ++ (10 ∷ nameserver_lines rest))

-- `for ns in $OPENSHELL_VM_DNS; do echo "nameserver $ns"; done`
abbrev pub guest_resolv_conf : Text → Text
guest_resolv_conf value = nameserver_lines (words_from [] value)

-- The text of an address: a word without comment signs that is read back as the address.
abbrev IsWord : ℕ → Type 0
IsWord c = (is_whitespace c ≡ false) × (is_comment c ≡ false)

pub record IsSpelled {S : Type 0} (net : Net S) (x : IpAddr) : Type 0 where
  pub nonempty : net.show_addr x ≢ []
  pub word : All IsWord (net.show_addr x)
  pub reads : net.parse_addr (net.show_addr x) ≡ some x

word-NoBlank : (s : Text) → All IsWord s → NoBlank s
word-NoBlank [] _ = tt
word-NoBlank (c ∷ s) (h, k) = (h.0, word-NoBlank s k)

word-no_comment : (s : Text) → All IsWord s → All (λ c. is_comment c ≡ false) s
word-no_comment [] _ = tt
word-no_comment (c ∷ s) (h, k) = (h.1, word-no_comment s k)

Lacks-of_NoBlank : (b : ℕ) → is_whitespace b ≡ true → (s : Text) → NoBlank s → Lacks b s
Lacks-of_NoBlank b blank [] _ = tt
Lacks-of_NoBlank b blank (c ∷ s) (h, k) =
    (λ e. cc (ap is_whitespace e, blank, h), Lacks-of_NoBlank b blank s k)

words_from-append :
    (cur w rest : Text) → Lacks b' ' w → words_from cur (w ++ rest) ≡ words_from (cur ++ w) rest
words_from-append cur [] rest _ = rw append-nil
words_from-append cur (c ∷ w) rest (h, k) =
    ground (arith, words_from-append (cur ++ c ∷ []) w rest k, append_assoc cur (c ∷ []) w)

last_word : (w : Text) → w ≢ [] → words_from w [] ≡ w ∷ []
last_word [] ne = absurd (ne refl)
last_word (c ∷ w) ne = refl

next_word : (w rest : Text) → w ≢ [] → words_from w (b' ' ∷ rest) ≡ w ∷ words_from [] rest
next_word [] rest ne = absurd (ne refl)
next_word (c ∷ w) rest ne = refl

-- Words joined by blanks are the words.
words-join :
    (ws : List Text)
    → All (λ w. (w ≢ []) × Lacks b' ' w) ws
    → words_from [] (Text.join (codes " ") ws) ≡ ws
unfolding Text.join
words-join [] _ = refl
words-join (w ∷ []) ((ne, h), _) = rw append-nil at (words_from-append [] w [] h) ∙ last_word w ne
words-join (w ∷ v ∷ ws) ((ne, h), k) =
    words_from-append [] w (codes " " ++ Text.join (codes " ") (v ∷ ws)) h
    ∙ next_word w (Text.join (codes " ") (v ∷ ws)) ne
    ∙ ap (λ (l : List Text). w ∷ l) (words-join (v ∷ ws) k)

trim_end-append : (s t : Text) → t ≢ [] → NoBlank t → trim_end (s ++ t) ≡ s ++ t
trim_end-append [] t ne h = trim_end-eq_self t h
trim_end-append (c ∷ s) t ne h = step (trim_end-append s t ne h)
  where
    step : trim_end (s ++ t) ≡ s ++ t → trim_end (c ∷ (s ++ t)) ≡ c ∷ (s ++ t)
    step ih = unfold trim_end in ground (arith, ih, is_empty-append s t ne)

abbrev keyword : Text
keyword = codes "nameserver "

keyword-trim : (t : Text) → t ≢ [] → NoBlank t → trim (keyword ++ t) ≡ keyword ++ t
unfolding trim trim_start is_whitespace
keyword-trim t ne h = trim_end-append keyword t ne h

blank-trim : (t : Text) → NoBlank t → trim (b' ' ∷ t) ≡ t
blank-trim t h = unfold trim trim_start is_whitespace in trim-eq_self t h

-- One line of the guest's file is read as the address that it names.
resolv_conf_line-eq_some :
    {S : Type 0} (net : Net S) (x : IpAddr)
    → IsSpelled net x
    → resolv_conf_line net (keyword ++ net.show_addr x) ≡ some x
unfolding resolv_conf_line strip_prefix starts_with_whitespace is_whitespace
resolv_conf_line-eq_some net x h =
    let t = net.show_addr x in
    let plain = word-NoBlank t h.word in
    let no_comment =
      All-append (λ c. is_comment c ≡ false) keyword t (All-of_none is_comment keyword refl)
        (word-no_comment t h.word) in
    rw (before-eq_self is_comment (keyword ++ t) no_comment, keyword-trim t h.nonempty plain)
      (rw (blank-trim t plain) h.reads)

module _ {S : Type 0} (net : Net S) where
  abbrev AllSpelled : List IpAddr → Type 0
  AllSpelled = All (IsSpelled net)

  parse_resolv_conf-nameserver_lines :
      (addrs : List IpAddr)
      → AllSpelled addrs
      → parse_resolv_conf net (nameserver_lines (map net.show_addr addrs)) ≡ addrs
  unfolding is_whitespace
  parse_resolv_conf-nameserver_lines [] _ = unfold parse_resolv_conf lines in refl
  parse_resolv_conf-nameserver_lines (x ∷ addrs) (h, k) =
      step (parse_resolv_conf-nameserver_lines addrs k)
    where
      t : Text
      t = net.show_addr x

      rest : Text
      rest = nameserver_lines (map net.show_addr addrs)

      lacks : (b : ℕ) → is_whitespace b ≡ true → Lacks b keyword → Lacks b (keyword ++ t)
      lacks b blank key =
          All-append (λ c. c ≢ b) keyword t key (Lacks-of_NoBlank b blank t (word-NoBlank t h.word))

      ten : Lacks 10 (keyword ++ t)
      ten = lacks 10 refl (omega arith)

      thirteen : Lacks 13 (keyword ++ t)
      thirteen = lacks 13 refl (omega arith)

      first : lines (keyword ++ (t ++ (10 ∷ rest))) ≡ (keyword ++ t) ∷ lines rest
      first = rw (
        ← append_assoc keyword t (10 ∷ rest),
        lines-break (keyword ++ t) rest ten,
        chomp-eq_self (keyword ++ t) thirteen,
      )

      step :
          parse_resolv_conf net rest ≡ addrs
          → parse_resolv_conf net (keyword ++ (t ++ (10 ∷ rest))) ≡ x ∷ addrs
      step ih =
          unfold parse_resolv_conf in
          rw first (ground (arith, resolv_conf_line-eq_some net x h, ih))

  nonblank_words :
      (addrs : List IpAddr)
      → AllSpelled addrs
      → All (λ w. (w ≢ []) × Lacks b' ' w) (map net.show_addr addrs)
  unfolding is_whitespace
  nonblank_words [] _ = tt
  nonblank_words (x ∷ addrs) (h, k) =
      ((h.nonempty, Lacks-of_NoBlank b' ' refl _ (word-NoBlank _ h.word)), nonblank_words addrs k)

  -- For nameservers whose texts are words that std reads back, the file that the guest writes from
  -- the value of `join` is read by `parse_resolv_conf` as the same nameservers, in the same order.
  pub parse_resolv_conf-guest :
      (addrs : List IpAddr)
      → All (IsSpelled net) addrs
      → parse_resolv_conf net (guest_resolv_conf (join net addrs)) ≡ addrs
  unfolding join
  parse_resolv_conf-guest addrs h =
      rw (words-join _ (nonblank_words addrs h)) (parse_resolv_conf-nameserver_lines addrs h)
