-- ===== src/Examples/Hostnames.antt =====
-- Two Tailscale addresses with the same last two bytes; numbers are written in tallies here.
use Prim.Native.Nat.{zero, suc}
use cluster_os.Prelude.{ℕ, String, ◌≡◌, refl, sym, ap, ◌∙◌, ◌↔◌, true, none, arith}
use cluster_os.Prelude.Words.{byte_length}
use cluster_os.Prelude.Fields.{NoSep}
use cluster_os.Daemon.Hostname.{TsIp, ipv4, Host, Outcomes, set_unique_hostname}
use cluster_os.Daemon.Hostname.Unique.{same_hostname_iff}

tally : ℕ → String
tally zero = ""
tally (suc n) = String.◌∷◌ "i" (tally n)

tally-NoSep : (n : ℕ) → NoSep 45 (tally n)
unfolding tally
tally-NoSep zero = tt
tally-NoSep (suc n) = (refl, tally-NoSep n)

byte_length-tally : (n : ℕ) → byte_length (tally n) ≡ n
unfolding tally byte_length
byte_length-tally zero = refl
byte_length-tally (suc n) = omega (arith, byte_length-tally n)

tally-injective : (m n : ℕ) → tally m ≡ tally n → m ≡ n
tally-injective m n e = sym (byte_length-tally m) ∙ (ap byte_length e ∙ byte_length-tally n)

abbrev ip_text : TsIp → String
ip_text ip = "100.64.1.2"

abbrev third : ℕ
third = 1

abbrev fourth : ℕ
fourth = 2

abbrev host : Host
host = record {
  hostname = "debian";
  etc_hostname = "debian\n";
  etc_hosts = none;
  node_name = "debian";
}

abbrev succeed : Outcomes
succeed = record { writes = true; hostnamectl = true; hostname_command = true; opens = true }

named : (b : ℕ) → (set_unique_hostname tally ip_text succeed (ipv4 100 b 1 2) host).1 ≡ none
unfolding set_unique_hostname cluster_os.Daemon.Hostname.new_hostname
    cluster_os.Prelude.Errors.after_text tally
named b = refl

same_hostname_iff_example :
    ((set_unique_hostname tally ip_text succeed (ipv4 100 64 1 2) host).0.hostname
      ≡ (set_unique_hostname tally ip_text succeed (ipv4 100 65 1 2) host).0.hostname)
    ↔ ((third ≡ third) × (fourth ≡ fourth))
same_hostname_iff_example =
    same_hostname_iff tally tally-NoSep tally-injective ip_text succeed succeed host host 100 64 1 2
      100 65 1 2 (named 64) (named 65)
