-- ===== src/Examples/Passwordless.antt =====
-- A spell of passwordless sudo at concrete inputs (faceauth-daemon/src/consent/passwordless.rs).
use omarchy_faceauth.Prelude.{true, false, none, some, Text, codes}
use omarchy_faceauth.Passwordless.{Spell, Host, timer_args, rule_line}
use omarchy_faceauth.Passwordless.Ends.{Ends}

abbrev dir : Text
dir = codes "/etc/sudoers.d"

-- ann's rule of an earlier approval, with its timer.
abbrev earlier : Spell
earlier = record {
  rule = some (rule_line (codes "ann"));
  tmp = none;
  timer = some (timer_args dir (codes "ann") 5);
}

-- systemd does not start the new timer.
abbrev no_systemd : Host
no_systemd = record {
  starts = false;
  removes = true;
  opens = true;
  writes = true;
  chmods = true;
  renames = true;
}
