-- ===== src/Api/System/Status.antt =====
-- What the counters of /proc/net/dev make of an interface's status.
use wol_monkey.Common.{
  ℕ, String, ◌≡◌, ◌≢◌, refl, sym, Bool, ◌||◌, some, List, [], ◌∷◌, ◌++◌, ◌==◌, eq_iff, eq_refl,
  Bool-cases, arith, inl, inr,
}
use wol_monkey.Common.Dict.{lookup, insert, lookup-insert}
use wol_monkey.Common.Text.{strip, split_words, partition}
use wol_monkey.Common.Text.Number.{ℤ, parse_int}
use wol_monkey.Domain.Records.{Dict}
use wol_monkey.Exec.{Result, Error, ok, err}
use wol_monkey.Api.System.Lines.{elem}
use wol_monkey.Api.System.Flags.{
  is_positive, index_error, flags_value, counters, dev_line, and_then, dev_lines,
}
use wol_monkey.Api.System.{has_bit, interface_of}

-- The three bits are kept apart.
flags_value-has_bit :
    (u r l : Bool)
    → (has_bit 1 (flags_value u r l) ≡ u)
      × (has_bit 64 (flags_value u r l) ≡ r)
      × (has_bit 8 (flags_value u r l) ≡ l)
unfolding flags_value
flags_value-has_bit u r l = ground arith

-- A line of /proc/net/dev: the name before the colon, and ten counters or more behind it.
pub record IsDevLine (line name rx_packets tx_packets : String) (rx tx : ℤ) : Type 0 where
  pub before : String
  pub behind : String
  pub cut : partition b':' line ≡ some (before, behind)
  pub stripped : strip before ≡ name
  pub rx_bytes : String
  pub skipped : List String
  pub c : String
  pub d : String
  pub e : String
  pub f : String
  pub g : String
  pub i : String
  pub j : String
  pub counts :
      split_words behind ≡ rx_bytes ∷ rx_packets ∷ c ∷ d ∷ e ∷ f ∷ g ∷ i ∷ j ∷ tx_packets ∷ skipped
  pub rx_number : parse_int rx_packets ≡ some rx
  pub tx_number : parse_int tx_packets ≡ some tx

-- A line with ten counters or more settles the status of its interface, and of no other: it is up
-- exactly if its name stands in the routing table, running exactly if it has received or sent a
-- packet, and loopback exactly if it is named lo.
pub dev_line-interface_of :
    (routed wireless : List String) (line name rx_packets tx_packets : String) (rx tx : ℤ)
    (flags : Dict ℕ) (ips : Dict (List String))
    → IsDevLine line name rx_packets tx_packets rx tx
    → (flags' : Dict ℕ) × (dev_line routed line flags ≡ ok flags')
      × ((interface_of wireless flags' ips name).is_up ≡ elem name routed)
      × ((interface_of wireless flags' ips name).is_running ≡ (is_positive rx || is_positive tx))
      × ((interface_of wireless flags' ips name).is_loopback ≡ (name == "lo"))
      × ((k : String) → k ≢ name → lookup k flags' ≡ lookup k flags)
unfolding dev_line counters interface_of
dev_line-interface_of routed wireless line name rx_packets tx_packets rx tx flags ips l =
    let f = flags_value (elem name routed) (is_positive rx || is_positive tx) (name == "lo") in
    let (up, running, lo) =
      flags_value-has_bit (elem name routed) (is_positive rx || is_positive tx) (name == "lo") in
    let found : lookup name (insert name f flags) ≡ some f =
      rw (lookup-insert name name f flags) (rw (eq_refl name) refl) in
    (
      insert name f flags,
      rw (l.cut, dev_line)
          (rw l.stripped (rw (l.counts, counters) (rw l.rx_number (rw l.tx_number refl)))),
      rw found up,
      rw found running,
      rw found lo,
      λ k differs. rw (lookup-insert name k f flags) (elim (Bool-cases (name == k)) [
        | inl same ↦
            let equal : name ≡ k = ground (arith, eq_iff name k) in absurd (differs (sym equal))
        | inr other ↦ rw other refl
      ]),
    )

-- A line of /proc/net/dev with a name and exactly nine counters, of which the second is a number.
pub record IsShortLine (line : String) : Type 0 where
  pub before : String
  pub behind : String
  pub cut : partition b':' line ≡ some (before, behind)
  pub rx_packets : String
  pub rx : ℤ
  pub a : String
  pub c : String
  pub d : String
  pub e : String
  pub f : String
  pub g : String
  pub i : String
  pub j : String
  pub counts : split_words behind ≡ a ∷ rx_packets ∷ c ∷ d ∷ e ∷ f ∷ g ∷ i ∷ j ∷ []
  pub rx_number : parse_int rx_packets ≡ some rx

short_line :
    (routed : List String) (line : String) (flags : Dict ℕ)
    → IsShortLine line
    → dev_line routed line flags ≡ err index_error
unfolding dev_line counters
short_line routed line flags l =
    rw (l.cut, dev_line) (rw (l.counts, counters) (rw l.rx_number refl))

-- A line with exactly nine counters passes the test for fewer than nine, and then its tenth counter
-- is read: wherever it stands among the lines, the parser raises, and no interface is listed.
pub dev_lines_short :
    (routed : List String) (lines lines' : List String) (line : String) (flags : Dict ℕ)
    → IsShortLine line
    → (e : Error) × (dev_lines routed (lines ++ line ∷ lines') flags ≡ err e)
unfolding dev_lines
dev_lines_short routed [] lines' line flags l =
    (index_error, rw (short_line routed line flags l) refl)
dev_lines_short routed (x ∷ xs) lines' line flags l =
    later (dev_line routed x flags) (λ flags'. dev_lines_short routed xs lines' line flags' l)
  where
    later :
        (r : Result (Dict ℕ))
        → ((flags' : Dict ℕ)
            → (e : Error) × (dev_lines routed (xs ++ line ∷ lines') flags' ≡ err e))
        → (e : Error) × (and_then r (λ flags'. dev_lines routed (xs ++ line ∷ lines') flags')
            ≡ err e)
    later (ok flags') ih = ih flags'
    later (err e) ih = (e, refl)
