-- ===== src/Worker/Reported.antt =====
-- What a request for the health of the worker is answered with.
use dawnshell.Worker.Platform.{Platform}
