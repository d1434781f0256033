-- ===== src/Lib.antt =====
-- The Python core of the OpenWrt and Grafana monitoring stack: the MCP server that runs commands on
-- routers over SSH (mcp_server/), the generator of the vendor table for MAC addresses
-- (scripts/build_oui_table.py) with the lookup in it on the router (openwrt/lua/oui.lua), and the
-- generators of the operations dashboard (scripts/build_openwrt_operations_dashboard.py) and of the
-- advanced, clients and topology dashboards beside it.
--
-- A text is a list of code points (Text); Text/Classes and Text/Ops model the methods of `str` that
-- the source uses, Text/Numbers the decimal numbers. Prelude holds the tests and the list lemmas.
--
-- Policy models mcp_server/core.py. An exception is a value of `Result`, with `PolicyError` as a
-- `Violation` and a bare `ValueError` beside it. Validate has the validators (`validate_host`,
-- `normalize_profile`, …), with `ipaddress.ip_address` written out in Address; HostKeys and
-- Inventory have the host-key policy and the router inventory, an association list in the order of
-- insertion, with the invariant of an accepted one in Inventory/Parsed; Commands and
-- Commands/Constants have the `build_*` functions and their texts; Output has
-- `require_confirm`, `truncate_output` and `redact`. Patterns are matched with `fullmatch`, so a
-- character class and a test for the empty text stand for them.
--
-- Shell models `shlex.quote`, and Shell/Words how a POSIX shell splits a line into words and
-- operators: single quotes, double quotes without expansions, blanks and the operators. A text
-- with a character that would start an expansion outside quotes, or in double quotes, is not read
-- at all (`none`). Policy/Commands/Reading and Policy/Commands/Setup read the built commands back.
--
-- Server models mcp_server/server.py. Settings has `Settings.from_env` over `os.getenv` as a
-- function; Middleware has `SecurityMiddleware.dispatch`; Session has the actions of the runner as
-- functions on the list of events so far, with paramiko, the clock, the file system, the archive and
-- the decoding of bytes as a record `Remote` of functions of the events, so that each answer may depend on all
-- that was done before; Runner has `SSHRunner`, Tools the tools as one function `call`. An event
-- `executed` or `sent` is an attempt: the answer that follows may be a failure. A command that never
-- ends has the outcome `hung`, since `recv_exit_status` waits for it without a timeout. Confirm,
-- Sessions, Secrets and Replies hold what is true of every call or command, Outcomes that a command
-- which is answered comes to a result.
--
-- Oui models scripts/build_oui_table.py: Rules the tables, Build the classification and the index,
-- Render the Lua text; Index, Vendors, Displays, Records and Hidden hold the proofs. A dictionary is an
-- association list, `sorted` is insertion. `base36` has as many rounds as the index has characters,
-- so no fuel is needed; the cutting of the index into lines runs on the length of the text as fuel,
-- and each piece takes at least one character. Lookup models openwrt/lua/oui.lua; its binary search
-- has one round more than there are records for its fuel, enough since each round halves the
-- range (Lookup/Search). Order, Sorted and Lookup/Registry
-- connect the table that is built with what is found in it.
--
-- Dashboard models scripts/build_openwrt_operations_dashboard.py: Json the values, Queries and
-- Styles the helpers, Panels the builders of panels, Builder `DashboardBuilder` and the variables,
-- Walk the walks through a dashboard, Dumps `json.dumps`, Validate and its children the checks of
-- `validate_dashboard`, with the whole in Validate/Whole. A failed `assert` and a missing key are
-- `none`. Assemble has the calls of `add` and `tab` by which every `build_dashboard` works: what is
-- added is a list of panels with their places, tab by tab. Operations holds those lists for the
-- operations dashboard, with a file for a tab or a part of one and the result in Operations/Whole;
-- Wifi its queries on stations. Advanced, Clients and Topology hold those of
-- scripts/build_openwrt_advanced_dashboard.py, scripts/build_openwrt_clients_dashboard.py and
-- scripts/build_openwrt_topology_dashboard.py, each with its constants and helpers in its Base.
--
-- Not modelled: the wiring of uvicorn, Starlette, FastMCP, paramiko and tarfile, which only calls
-- libraries; the other generators, and the checks of the advanced, clients and topology dashboards;
-- the setup script and the collectors on the router; configuration files.
pub mod Prelude
pub mod Text
pub mod Shell
pub mod Policy
pub mod Server
pub mod Oui
pub mod Dashboard
