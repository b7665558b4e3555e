-- ===== src/Tests/Pulses.antt =====
-- A press on a machine that does not answer.
use wendougee_data_ha.Base.{[], ◌∷◌, true, ◌≡◌, refl}
use wendougee_data_ha.Command.{profile_press, profile_release, command_request}
use wendougee_data_ha.Crc.{append_crc}
use wendougee_data_ha.Session.{command, new, is_usable, request_of}
use wendougee_data_ha.Link.{is_allowed}
use wendougee_data_ha.Press.{is_release, pulse}
use wendougee_data_ha.Press.Release.{pulse_releases}
use wendougee_data_ha.Tests.Machine.{machine, link}

silent : is_usable (link []).session ≡ true
unfolding is_usable new
silent = refl

releases : is_release profile_release ≡ true
unfolding is_release
releases = refl

press_allowed : is_allowed machine.allowed (request_of (command profile_press)) ≡ true
unfolding is_allowed machine request_of command_request append_crc
press_allowed = refl

release_allowed : is_allowed machine.allowed (request_of (command profile_release)) ≡ true
unfolding is_allowed machine request_of command_request append_crc
release_allowed = refl

pulse_releases_example :
    (pulse machine profile_press profile_release (link [])).1.history
    ≡ command profile_release ∷ command profile_press ∷ []
pulse_releases_example =
    pulse_releases machine profile_press profile_release (link []) silent releases press_allowed
      release_allowed
