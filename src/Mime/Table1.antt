-- ===== src/Mime/Table1.antt =====
-- src/mime.rs: the entries of `MIME_TYPE_BY_EXTENSION` from "cdmic" to "efif".
use anweb.Prelude.{List, [], ◌∷◌, codes, Bytes}

abbrev pub types_1 : List (Bytes × Bytes)
types_1 =
    (codes "cdmic", codes "application/cdmi-container")
    ∷ (codes "cdmid", codes "application/cdmi-domain")
    ∷ (codes "cdmio", codes "application/cdmi-object")
    ∷ (codes "cdmiq", codes "application/cdmi-queue")
    ∷ (codes "cdx", codes "chemical/x-cdx")
    ∷ (codes "cdxml", codes "application/vnd.chemdraw+xml")
    ∷ (codes "cdy", codes "application/vnd.cinderella")
    ∷ (codes "cer", codes "application/x-x509-ca-cert")
    ∷ (codes "cfg", codes "text/plain")
    ∷ (codes "cfs", codes "application/x-cfs-compressed")
    ∷ (codes "cgm", codes "image/cgm")
    ∷ (codes "chat", codes "application/x-chat")
    ∷ (codes "chm", codes "application/octet-stream")
    ∷ (codes "chrt", codes "application/vnd.kde.kchart")
    ∷ (codes "cif", codes "chemical/x-cif")
    ∷ (codes "cii", codes "application/vnd.anser-web-certificate-issue-initiation")
    ∷ (codes "cil", codes "application/vnd.ms-artgalry")
    ∷ (codes "cla", codes "application/vnd.claymore")
    ∷ (codes "class", codes "application/x-java-applet")
    ∷ (codes "clkk", codes "application/vnd.crick.clicker.keyboard")
    ∷ (codes "clkp", codes "application/vnd.crick.clicker.palette")
    ∷ (codes "clkt", codes "application/vnd.crick.clicker.template")
    ∷ (codes "clkw", codes "application/vnd.crick.clicker.wordbank")
    ∷ (codes "clkx", codes "application/vnd.crick.clicker")
    ∷ (codes "clp", codes "application/x-msclip")
    ∷ (codes "cmc", codes "application/vnd.cosmocaller")
    ∷ (codes "cmd", codes "text/plain")
    ∷ (codes "cmdf", codes "chemical/x-cmdf")
    ∷ (codes "cml", codes "chemical/x-cml")
    ∷ (codes "cmp", codes "application/vnd.yellowriver-custom-menu")
    ∷ (codes "cmx", codes "image/x-cmx")
    ∷ (codes "cnf", codes "text/plain")
    ∷ (codes "cod", codes "image/cis-cod")
    ∷ (codes "coffee", codes "text/coffeescript")
    ∷ (codes "com", codes "application/x-msdownload")
    ∷ (codes "conf", codes "text/plain")
    ∷ (codes "config", codes "application/xml")
    ∷ (codes "contact", codes "text/x-ms-contact")
    ∷ (codes "coverage", codes "application/xml")
    ∷ (codes "cpio", codes "application/x-cpio")
    ∷ (codes "cpp", codes "text/plain")
    ∷ (codes "cpt", codes "application/mac-compactpro")
    ∷ (codes "crd", codes "application/x-mscardfile")
    ∷ (codes "crl", codes "application/pkix-crl")
    ∷ (codes "crt", codes "application/x-x509-ca-cert")
    ∷ (codes "crx", codes "application/x-chrome-extension")
    ∷ (codes "cryptonote", codes "application/vnd.rig.cryptonote")
    ∷ (codes "cs", codes "text/plain")
    ∷ (codes "csdproj", codes "text/plain")
    ∷ (codes "csh", codes "application/x-csh")
    ∷ (codes "csl", codes "application/vnd.citationstyles.style+xml")
    ∷ (codes "csml", codes "chemical/x-csml")
    ∷ (codes "csp", codes "application/vnd.commonspace")
    ∷ (codes "csproj", codes "text/plain")
    ∷ (codes "css", codes "text/css")
    ∷ (codes "cst", codes "application/x-director")
    ∷ (codes "csv", codes "text/csv")
    ∷ (codes "cu", codes "application/cu-seeme")
    ∷ (codes "cur", codes "application/octet-stream")
    ∷ (codes "curl", codes "text/vnd.curl")
    ∷ (codes "cww", codes "application/prs.cww")
    ∷ (codes "cxt", codes "application/x-director")
    ∷ (codes "cxx", codes "text/plain")
    ∷ (codes "dae", codes "model/vnd.collada+xml")
    ∷ (codes "daf", codes "application/vnd.mobius.daf")
    ∷ (codes "dart", codes "application/vnd.dart")
    ∷ (codes "dat", codes "application/octet-stream")
    ∷ (codes "dataless", codes "application/vnd.fdsn.seed")
    ∷ (codes "datasource", codes "application/xml")
    ∷ (codes "davmount", codes "application/davmount+xml")
    ∷ (codes "dbk", codes "application/docbook+xml")
    ∷ (codes "dbproj", codes "text/plain")
    ∷ (codes "dcr", codes "application/x-director")
    ∷ (codes "dcurl", codes "text/vnd.curl.dcurl")
    ∷ (codes "dd2", codes "application/vnd.oma.dd2+xml")
    ∷ (codes "ddd", codes "application/vnd.fujixerox.ddd")
    ∷ (codes "deb", codes "application/octet-stream")
    ∷ (codes "def", codes "text/plain")
    ∷ (codes "deploy", codes "application/octet-stream")
    ∷ (codes "der", codes "application/x-x509-ca-cert")
    ∷ (codes "dfac", codes "application/vnd.dreamfactory")
    ∷ (codes "dgc", codes "application/x-dgc-compressed")
    ∷ (codes "dgml", codes "application/xml")
    ∷ (codes "dib", codes "image/bmp")
    ∷ (codes "dic", codes "text/x-c")
    ∷ (codes "dif", codes "video/x-dv")
    ∷ (codes "dir", codes "application/x-director")
    ∷ (codes "dis", codes "application/vnd.mobius.dis")
    ∷ (codes "disco", codes "text/xml")
    ∷ (codes "disposition-notification", codes "message/disposition-notification")
    ∷ (codes "dist", codes "application/octet-stream")
    ∷ (codes "distz", codes "application/octet-stream")
    ∷ (codes "divx", codes "video/divx")
    ∷ (codes "djv", codes "image/vnd.djvu")
    ∷ (codes "djvu", codes "image/vnd.djvu")
    ∷ (codes "dll", codes "application/x-msdownload")
    ∷ (codes "dll.config", codes "text/xml")
    ∷ (codes "dlm", codes "text/dlm")
    ∷ (codes "dmg", codes "application/octet-stream")
    ∷ (codes "dmp", codes "application/vnd.tcpdump.pcap")
    ∷ (codes "dms", codes "application/octet-stream")
    ∷ (codes "dna", codes "application/vnd.dna")
    ∷ (codes "doc", codes "application/msword")
    ∷ (codes "docm", codes "application/vnd.ms-word.document.macroEnabled.12")
    ∷ (
      codes "docx",
      codes "application/vnd.openxmlformats-officedocument.wordprocessingml.document",
    )
    ∷ (codes "dot", codes "application/msword")
    ∷ (codes "dotm", codes "application/vnd.ms-word.template.macroEnabled.12")
    ∷ (
      codes "dotx",
      codes "application/vnd.openxmlformats-officedocument.wordprocessingml.template",
    )
    ∷ (codes "dp", codes "application/vnd.osgi.dp")
    ∷ (codes "dpg", codes "application/vnd.dpgraph")
    ∷ (codes "dra", codes "audio/vnd.dra")
    ∷ (codes "dsc", codes "text/prs.lines.tag")
    ∷ (codes "dsp", codes "application/octet-stream")
    ∷ (codes "dssc", codes "application/dssc+der")
    ∷ (codes "dsw", codes "text/plain")
    ∷ (codes "dtb", codes "application/x-dtbook+xml")
    ∷ (codes "dtd", codes "text/xml")
    ∷ (codes "dts", codes "audio/vnd.dts")
    ∷ (codes "dtsconfig", codes "text/xml")
    ∷ (codes "dtshd", codes "audio/vnd.dts.hd")
    ∷ (codes "dump", codes "application/octet-stream")
    ∷ (codes "dv", codes "video/x-dv")
    ∷ (codes "dvb", codes "video/vnd.dvb.file")
    ∷ (codes "dvi", codes "application/x-dvi")
    ∷ (codes "dwf", codes "drawing/x-dwf")
    ∷ (codes "dwg", codes "application/acad")
    ∷ (codes "dwp", codes "application/octet-stream")
    ∷ (codes "dxf", codes "application/x-dxf")
    ∷ (codes "dxp", codes "application/vnd.spotfire.dxp")
    ∷ (codes "dxr", codes "application/x-director")
    ∷ (codes "ear", codes "application/java-archive")
    ∷ (codes "ecelp4800", codes "audio/vnd.nuera.ecelp4800")
    ∷ (codes "ecelp7470", codes "audio/vnd.nuera.ecelp7470")
    ∷ (codes "ecelp9600", codes "audio/vnd.nuera.ecelp9600")
    ∷ (codes "ecma", codes "application/ecmascript")
    ∷ (codes "edm", codes "application/vnd.novadigm.edm")
    ∷ (codes "edx", codes "application/vnd.novadigm.edx")
    ∷ (codes "efif", codes "application/vnd.picsel")
    ∷ []
