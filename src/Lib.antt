-- ===== src/Lib.antt =====
-- Autonomic: the Python tooling that decides whether the repository may be released,
-- and the Python client of its effect broker.
--
-- The program's parts, and the files that model them:
--
--   scripts/qc.py, the conformance runner, is the module Qc.
--     Qc/Process.antt: _run_logged_command and _terminate_process. A process is a function from the
--       polling round to what the round sees (poll() and the time passed, in milliseconds). The loop
--       takes fuel: timeout / 250 + 2 rounds, which is enough since every round sleeps 250 ms; the
--       outcome `unfinished` stands for the end of the fuel.
--     Qc/Gate/*.antt: run_gate, run_compound_gate, pending, gate_by_id and add_alias_gate over a
--       gate's record. What commands do is a parameter (Host): whether Popen succeeds, the process,
--       and the bytes that it writes to the log. The regular expression that the log is searched for
--       is a value of Regex.
--     Qc/Inventory/*.antt: source_files, static_inventory and secret_scan over a checkout, which is
--       the list of its files. What json.loads and tomllib.loads say of a file, and its decoded
--       text, are fields of the file.
--     Qc/Plan/*.antt: the ten sections of main, each the gates that it appends, with its conditions.
--     Qc/Report/*.antt: the end of main: duplicates, missing gates, the report, the exit status.
--     Qc/Main.antt: main as a whole, from the arguments, the tools on the path, the environment
--       variables and the checkout.
--   scripts/lint_package_boundaries.py, the lint of the packages' dependencies, is the module
--   Boundaries.
--     Boundaries/Deps.antt: parse_package_deps, whose regular expression is a scanner by clauses.
--     Boundaries.antt: FORBIDDEN_RULES and check_boundaries over a checkout, which is the texts of
--       the mix.exs files and the Elixir sources below the root.
--   scripts/release.py, the release pipeline, is the module Release.
--     Release/Packages.antt: the checkout as the commands read it: each package's folder and texts,
--       and what the lint reads.
--     Release/Check.antt: command_check, with the lint of Boundaries on the same checkout.
--     Release/Copy.antt: copy_package_files over a folder as os.walk goes through it.
--     Release/Rewrite.antt: the three re.sub of a staged mix.exs, as scanners by clauses, and the
--       search for what couples it to the workspace.
--     Release/Stage.antt: command_stage on the folder of a version, which is the packages' files and
--       the tarballs. A command returns a code or raises.
--     Release/Build.antt: command_build. What `mix hex.build` does with a package's files, its return
--       code and the tarballs in the folder behind it, is a parameter (Hex); it leaves the staged
--       files alone.
--     Release/Inspect.antt: command_inspect. What tarfile gives for a tarball, the members, and the
--       entries of contents.tar.gz, is the tarball's value.
--     Release/Main.antt: command_publish, and main on the stages of all versions, from the command
--       that argparse gives.
--   scripts/verify_packages.py, the installation of the inspected packages from a registry of their
--   own, is the module Isolated.
--     Isolated/Environment.antt: the environment that each command's is made from, with
--       .tool-versions.
--     Isolated.antt: main, as the log of what it does. Whether a command succeeds behind a log, the
--       port of the server, and which packages have tests are a parameter (Host). What is copied is
--       there, since the inspection before has unpacked it; a copy fails where Python's does.
--   scripts/build_rootfs.py, the root file system for verifications, is the module Rootfs.
--     Rootfs.antt: the loop over the required executables with copy_file and dependencies, as what
--       is placed below the root; and the splice of inet_config.erl. Where the executables are, what
--       ldd prints, and which paths are files, are a parameter (Tools).
--   examples/16_worker_sdk_python/worker_sdk.py, the worker's client of the broker, is the module
--   Worker.
--     Worker/Socket.antt: struct.pack, struct.unpack and _recv_exact on a socket, which is the
--       segments that arrive. The loop takes fuel: one round more than the bytes that are wanted,
--       which is enough since a round that reads nothing ends it.
--     Worker/Client.antt: BrokerClient with _roundtrip and its actions. json, base64, hashlib and
--       uuid, and what the broker sends back for the bytes that it gets, are a parameter (Runtime).
--       Each request has a number, the connection that it is made on.
--     Worker/Fetch.antt: fetch_response, its checks and its loop. The loop takes fuel, since nothing
--       bounds the chunks of a broker that never says that it is done; for a broker that serves a
--       response page by page one round more than the bytes of the response is enough.
--   Regex.antt: Python's regular expressions as the scripts use them, by derivatives, with the
--     language of an expression in Regex/Matching.antt and word boundaries in Regex/Words.antt.
--
-- The parts interact by calls and lists: main of qc.py runs the gates through Host, reads earlier
-- gates for the alias gates, and hands the whole list to the conclusion. The lint, release.py and
-- verify_packages.py are commands that qc.py runs as gates. command_check of release.py runs the lint
-- on its own checkout; command_inspect runs command_build, which runs command_stage; and
-- verify_packages.py runs command_inspect first. The client stands alone: it talks to the broker over
-- a socket.
--
-- Not modelled: time stamps, digests and the texts printed, which are output; the version texts of
-- the report; argparse; the self-test of the client; the trees, the compilers and the manifest of
-- build_rootfs.py; the Elixir packages and the Rust launcher. Texts are lists of code points: \w, \b
-- and upper() are those of ASCII.
pub mod Boundaries
pub mod Common
pub mod Isolated
pub mod Qc
pub mod Regex
pub mod Release
pub mod Rootfs
pub mod Worker
